-- ===== src/Inspector/Pause/Rounds.antt =====
-- inspector_admin.go: how the loop of `pauseResume` ends.
use mkq.Prelude.{
  ℕ, zero, suc, ◌≤◌, ◌<◌, ◌∷◌, none, some, Bytes, ◌≡◌, refl, ap, ◌⊎◌, inl, inr, ℤ, pos, ◌≤ℤ◌, leb_ℤ,
  Bool-cases, arith,
}
use mkq.Failure.{Failure}
use mkq.Keys.{Builder, Slot}
use mkq.Redis.{World, History, M, Result, ok, err}
use mkq.Inspector.Pause.{
  pause_call, pause_reply, parked, decide, pause_rounds, pause_resume, run_pause_script,
}

module _ (w : World) (b : Builder) (source target : Slot) (event : Bytes) where
  -- The calls made by then, when the script has been run a number of times.
  abbrev pub rounds : ℕ → History → History
  rounds zero h = h
  rounds (suc n) h = rounds n (pause_call w b source target event ∷ h)

  -- What the script answers when it is run behind that many runs.
  abbrev pub reply : ℕ → History → Result ℤ
  reply n h = pause_reply event (w.redis (rounds n h) (pause_call w b source target event))

  -- The answer of the last run decides: none left, an error, or jobs left at the limit.
  abbrev pub Decided : ℕ → History → Result (Unit {0}) × History → ℕ → Type 0
  Decided limit h r n =
      ((v : ℤ) × (reply n h ≡ ok v) × (v ≤ℤ pos 0) × (r.0 ≡ ok tt))
      ⊎ (((e : Failure) × (reply n h ≡ err e) × (r.0 ≡ err e))
          ⊎ ((v : ℤ) × (n ≡ limit)
              × (reply n h ≡ ok v)
              × (pos 1 ≤ℤ v)
              × (r.0 ≡ parked w b source target event v)))

  -- The loop ends behind `last` and one more runs, of `limit` and one more at most; every run before the
  -- last leaves jobs behind, and the last answer decides.
  pub record Ends (limit : ℕ) (h : History) (r : Result (Unit {0}) × History) : Type 0 where
    pub last : ℕ
    pub within : last ≤ limit
    pub calls : r.1 ≡ rounds (suc last) h
    pub left_before : (m : ℕ) → m < last → (v : ℤ) × (reply m h ≡ ok v) × (pos 1 ≤ℤ v)
    pub decided : Decided limit h r last

  none_before : (h : History) (m : ℕ) → m < 0 → (v : ℤ) × (reply m h ≡ ok v) × (pos 1 ≤ℤ v)
  none_before h m l = absurd (omega (arith, l))

  last_round :
      (h : History) (r : Result ℤ)
      → reply 0 h ≡ r
      → Ends 0 h (decide w b source target event r none (rounds 1 h))
  last_round h (err e) same = record {
    last = 0;
    within = omega arith;
    calls = refl;
    left_before = none_before h;
    decided = inr (inl (e, same, refl));
  }
  last_round h (ok v) same = elim (Bool-cases (leb_ℤ v (pos 0))) [
    | inl done ↦ rw done (record {
      last = 0;
      within = omega arith;
      calls = refl;
      left_before = none_before h;
      decided = inl (v, same, ground arith, refl);
    })
    | inr left ↦ rw left (record {
      last = 0;
      within = omega arith;
      calls = refl;
      left_before = none_before h;
      decided = inr (inr (v, refl, same, ground arith, refl));
    })
  ]

  left_at_first :
      (h : History) (n : ℕ) (v : ℤ)
      → reply 0 h ≡ ok v
      → pos 1 ≤ℤ v
      → ((m : ℕ) → m < n → (u : ℤ) × (reply m (rounds 1 h) ≡ ok u) × (pos 1 ≤ℤ u))
      → (m : ℕ) → m < suc n
      → (u : ℤ) × (reply m h ≡ ok u) × (pos 1 ≤ℤ u)
  left_at_first h n v same left later zero l = (v, same, left)
  left_at_first h n v same left later (suc m) l = later m (omega arith)

  raised :
      (f : ℕ) (h : History) (r : Result (Unit {0}) × History) (n : ℕ)
      → Decided f (rounds 1 h) r n
      → Decided (suc f) h r (suc n)
  raised f h r n (inl d) = inl d
  raised f h r n (inr (inl d)) = inr (inl d)
  raised f h r n (inr (inr (v, at_limit, same, left, gave_up))) =
      inr (inr (v, ap suc at_limit, same, left, gave_up))

  one_more :
      (f : ℕ) (h : History) (v : ℤ) (rest : M (Unit {0}))
      → reply 0 h ≡ ok v
      → pos 1 ≤ℤ v
      → Ends f (rounds 1 h) (rest (rounds 1 h))
      → Ends (suc f) h (rest (rounds 1 h))
  one_more f h v rest same left later = record {
    last = suc later.last;
    within = omega (arith, later.within);
    calls = later.calls;
    left_before = left_at_first h later.last v same left later.left_before;
    decided = raised f h (rest (rounds 1 h)) later.last later.decided;
  }

  first_round :
      (f : ℕ) (h : History) (r : Result ℤ) (rest : M (Unit {0}))
      → reply 0 h ≡ r
      → Ends f (rounds 1 h) (rest (rounds 1 h))
      → Ends (suc f) h (decide w b source target event r (some rest) (rounds 1 h))
  first_round f h (err e) rest same later = record {
    last = 0;
    within = omega arith;
    calls = refl;
    left_before = none_before h;
    decided = inr (inl (e, same, refl));
  }
  first_round f h (ok v) rest same later = elim (Bool-cases (leb_ℤ v (pos 0))) [
    | inl done ↦ rw done (record {
      last = 0;
      within = omega arith;
      calls = refl;
      left_before = none_before h;
      decided = inl (v, same, ground arith, refl);
    })
    | inr left ↦ rw left (one_more f h v rest same (ground arith) later)
  ]

  pause_rounds-Ends : (f : ℕ) (h : History) → Ends f h (pause_rounds w b source target event f h)
  unfolding pause_rounds run_pause_script
  pause_rounds-Ends zero h = last_round h _ refl
  pause_rounds-Ends (suc f) h =
      first_round f h _ (pause_rounds w b source target event f) refl
        (pause_rounds-Ends f (rounds 1 h))

  -- `Pause` and `Resume` end: they run the script at most a hundred times. While it reports jobs left
  -- behind they run it again; they succeed when it reports none, give its error back when it fails, and
  -- give up only at the hundredth run that leaves jobs behind.
  pub pause_resume-Ends : (h : History) → Ends 99 h (pause_resume w b source target event h)
  unfolding pause_resume
  pause_resume-Ends h = pause_rounds-Ends 99 h
