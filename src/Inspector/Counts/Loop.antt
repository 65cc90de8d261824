-- ===== src/Inspector/Counts/Loop.antt =====
-- inspector.go: the loop of `Counts`.
use mkq.Prelude.{
  Bool, true, false, ◌&&◌, List, [], ◌∷◌, ◌++◌, map, ℤ, pos, ◌==◌, eq_bytes, eq_bytes_sound, length,
  if◌then◌else◌, Bool-cases, arith, ◌≡◌, refl, sym, ap, ◌∙◌, inl, inr, ◌⊎◌,
}
use mathlib.Core.Path.{fun_ext}
use mkq.Backoff.{Floats}
use mkq.Redis.{Value, int}
use mkq.Inspector.Counts.{
  JobBucket, bucket_wait, bucket_active, bucket_delayed, bucket_prioritized, bucket_completed,
  bucket_failed, bucket_paused, QueueCounts, contains_bucket, assign_bucket, query_of, count_one,
  count_all,
}

-- Which states are wanted behind a turn: the waiting jobs only when they are asked for.
abbrev keep : Bool → Bool → (JobBucket → Bool) → (JobBucket → Bool) → JobBucket → Bool
keep true true q p = q
keep true false q p = p
keep false ww q p = q

keep_first : (e ww : Bool) (q p : JobBucket → Bool) → (ww ≡ true) ⊎ (e ≡ false) → keep e ww q p ≡ q
keep_first true true q p h = refl
keep_first true false q p (inl h) = cc
keep_first true false q p (inr h) = cc
keep_first false ww q p h = refl

either_first :
    (x y z : Bool)
    → (if y then true else (if x then true else z)) ≡ (if (if x then true else y) then true else z)
either_first true true z = refl
either_first true false z = refl
either_first false true z = refl
either_first false false z = refl

not_first : (x y : Bool) → (if x then true else y) ≡ false → (x ≡ false) × (y ≡ false)
not_first true y h = cc
not_first false y h = (refl, h)

or_false : (x : Bool) → (if x then true else false) ≡ x
or_false true = refl
or_false false = refl

not_needed {ℓ} : {A : Type ℓ} (x : Bool) (y z : A) → (if x && false then y else z) ≡ z
not_needed true y z = refl
not_needed false y z = refl

module _ (sizes : JobBucket → ℤ) where
  abbrev pub tally : Bool → JobBucket → ℤ
  tally wanted s = if wanted then sizes s else pos 0

  -- The counts of the states that are wanted.
  abbrev pub tallied : (JobBucket → Bool) → QueueCounts
  tallied p = record {
    wait = tally (p bucket_wait) bucket_wait;
    active = tally (p bucket_active) bucket_active;
    delayed = tally (p bucket_delayed) bucket_delayed;
    prioritized = tally (p bucket_prioritized) bucket_prioritized;
    completed = tally (p bucket_completed) bucket_completed;
    failed = tally (p bucket_failed) bucket_failed;
    paused = tally (p bucket_paused) bucket_paused;
  }

  abbrev with_bucket : JobBucket → (JobBucket → Bool) → JobBucket → Bool
  with_bucket b p s = if eq_bytes b s then true else p s

  assign_bucket_lem :
      (b : JobBucket) (p : JobBucket → Bool)
      → assign_bucket b (sizes b) (tallied p) ≡ tallied (with_bucket b p)
  unfolding assign_bucket
  assign_bucket_lem b p = elim (Bool-cases (eq_bytes b bucket_wait)) [
    | inl e ↦ rw (eq_bytes_sound b bucket_wait e) refl
    | inr e1 ↦ elim (Bool-cases (eq_bytes b bucket_active)) [
      | inl e ↦ rw (eq_bytes_sound b bucket_active e) refl
      | inr e2 ↦ elim (Bool-cases (eq_bytes b bucket_delayed)) [
        | inl e ↦ rw (eq_bytes_sound b bucket_delayed e) refl
        | inr e3 ↦ elim (Bool-cases (eq_bytes b bucket_prioritized)) [
          | inl e ↦ rw (eq_bytes_sound b bucket_prioritized e) refl
          | inr e4 ↦ elim (Bool-cases (eq_bytes b bucket_completed)) [
            | inl e ↦ rw (eq_bytes_sound b bucket_completed e) refl
            | inr e5 ↦ elim (Bool-cases (eq_bytes b bucket_failed)) [
              | inl e ↦ rw (eq_bytes_sound b bucket_failed e) refl
              | inr e6 ↦ elim (Bool-cases (eq_bytes b bucket_paused)) [
                | inl e ↦ rw (eq_bytes_sound b bucket_paused e) refl
                | inr e7 ↦ rw (e1, e2, e3, e4, e5, e6, e7) refl
              ]
            ]
          ]
        ]
      ]
    ]
  ]

  -- The states that are wanted behind one turn, and behind the loop.
  abbrev kept : Bool → JobBucket → (JobBucket → Bool) → JobBucket → Bool
  kept ww b p = keep (eq_bytes b bucket_wait) ww (with_bucket b p) p

  abbrev kept_all : Bool → List JobBucket → (JobBucket → Bool) → JobBucket → Bool
  kept_all ww [] p = p
  kept_all ww (b ∷ bs) p = kept_all ww bs (kept ww b p)

  abbrev pub waiting : List JobBucket → ℤ → ℤ
  waiting [] n = n
  waiting (b ∷ bs) n = waiting bs (if eq_bytes b bucket_wait then sizes b else n)

  abbrev pub sizes_reply : List JobBucket → List Value
  sizes_reply bs = map (λ s. int (sizes s)) bs

  count_one_step :
      (fl : Floats) (ww : Bool) (b : JobBucket) (m : ℤ) (out : QueueCounts) (n : ℤ)
      → count_one fl ww b (int m) (out, n) ≡ (
          if eq_bytes b bucket_wait
          then (if ww then (assign_bucket b m out, m) else (out, m))
          else (assign_bucket b m out, n))
  unfolding count_one
  count_one_step fl ww b m out n = refl

  turn :
      (e ww : Bool) (q p : JobBucket → Bool) (m n : ℤ)
      → ◌≡◌ {A = QueueCounts × ℤ}
          (if e then (if ww then (tallied q, m) else (tallied p, m)) else (tallied q, n))
          (tallied (keep e ww q p), if e then m else n)
  turn true true q p m n = refl
  turn true false q p m n = refl
  turn false ww q p m n = refl

  count_one_lem :
      (fl : Floats) (ww : Bool) (b : JobBucket) (p : JobBucket → Bool) (n : ℤ)
      → count_one fl ww b (int (sizes b)) (tallied p, n)
        ≡ (tallied (kept ww b p), if eq_bytes b bucket_wait then sizes b else n)
  count_one_lem fl ww b p n =
      rw (count_one_step fl ww b (sizes b) (tallied p) n, assign_bucket_lem b p)
        (turn (eq_bytes b bucket_wait) ww (with_bucket b p) p (sizes b) n)

  count_all_lem :
      (fl : Floats) (ww : Bool) (bs : List JobBucket) (p : JobBucket → Bool) (n : ℤ)
      → count_all fl ww bs (sizes_reply bs) (tallied p, n)
        ≡ (tallied (kept_all ww bs p), waiting bs n)
  unfolding count_all
  count_all_lem fl ww [] p n = refl
  count_all_lem fl ww (b ∷ bs) p n =
      rw (count_one_lem fl ww b p n)
        (count_all_lem fl ww bs (kept ww b p) (if eq_bytes b bucket_wait then sizes b else n))

  split :
      (b : JobBucket) (bs : List JobBucket) (ww : Bool)
      → (ww ≡ true) ⊎ (contains_bucket (b ∷ bs) bucket_wait ≡ false)
      → ((ww ≡ true) ⊎ (eq_bytes b bucket_wait ≡ false))
        × ((ww ≡ true) ⊎ (contains_bucket bs bucket_wait ≡ false))
  unfolding contains_bucket
  split b bs ww (inl h) = (inl h, inl h)
  split b bs ww (inr h) =
      let r = not_first (eq_bytes b bucket_wait) (contains_bucket bs bucket_wait) h in
      (inr r.0, inr r.1)

  -- Every requested state is wanted, and no other.
  kept_all_lem :
      (ww : Bool) (bs : List JobBucket) (p : JobBucket → Bool) (s : JobBucket)
      → (ww ≡ true) ⊎ (contains_bucket bs bucket_wait ≡ false)
      → kept_all ww bs p s ≡ (if contains_bucket bs s then true else p s)
  unfolding contains_bucket
  kept_all_lem ww [] p s h = refl
  kept_all_lem ww (b ∷ bs) p s h =
      let parts : ((ww ≡ true) ⊎ (eq_bytes b bucket_wait ≡ false))
          × ((ww ≡ true) ⊎ (contains_bucket bs bucket_wait ≡ false)) =
        split b bs ww h in
      rw
        (
          keep_first (eq_bytes b bucket_wait) ww (with_bucket b p) p parts.0,
          kept_all_lem ww bs (with_bucket b p) s parts.1,
        )
        (either_first (eq_bytes b s) (contains_bucket bs s) (p s))

  kept_all-append :
      (ww : Bool) (bs : List JobBucket) (b : JobBucket) (p : JobBucket → Bool)
      → kept_all ww (bs ++ (b ∷ [])) p ≡ kept ww b (kept_all ww bs p)
  kept_all-append ww [] b p = refl
  kept_all-append ww (c ∷ bs) b p = kept_all-append ww bs b (kept ww c p)

  waiting-append :
      (bs : List JobBucket) (n : ℤ) → waiting (bs ++ (bucket_wait ∷ [])) n ≡ sizes bucket_wait
  waiting-append [] n = refl
  waiting-append (c ∷ bs) n = waiting-append bs (if eq_bytes c bucket_wait then sizes c else n)

  waiting_lem :
      (bs : List JobBucket) (n : ℤ)
      → (contains_bucket bs bucket_wait ≡ true) ⊎ (n ≡ sizes bucket_wait)
      → waiting bs n ≡ sizes bucket_wait
  unfolding contains_bucket
  waiting_lem [] n (inl h) = cc
  waiting_lem [] n (inr h) = h
  waiting_lem (b ∷ bs) n h = elim (Bool-cases (eq_bytes b bucket_wait)) [
    | inl e ↦ rw (e) (waiting_lem bs (sizes b) (inr (ap sizes (eq_bytes_sound b bucket_wait e))))
    | inr e ↦
        rw (e) (waiting_lem bs n (elim h [ inl g ↦ inl (rw (sym g, e) refl) | inr g ↦ inr g ]))
  ]

  query_of_plain :
      (bs : List JobBucket)
      → (contains_bucket bs bucket_paused ≡ false) ⊎ (contains_bucket bs bucket_wait ≡ true)
      → query_of bs ≡ bs
  unfolding query_of
  query_of_plain bs (inl h) = rw (h) refl
  query_of_plain bs (inr h) =
      rw (h) (not_needed (contains_bucket bs bucket_paused) (bs ++ (bucket_wait ∷ [])) bs)

  query_of_more :
      (bs : List JobBucket)
      → contains_bucket bs bucket_paused ≡ true
      → contains_bucket bs bucket_wait ≡ false
      → query_of bs ≡ bs ++ (bucket_wait ∷ [])
  unfolding query_of
  query_of_more bs h g = rw (h, g) refl

  kept_all-query_of :
      (bs : List JobBucket)
      → kept_all (contains_bucket bs bucket_wait) (query_of bs) (λ s. false) ≡ contains_bucket bs
  kept_all-query_of bs = elim (Bool-cases (contains_bucket bs bucket_wait)) [
    | inl e ↦
        rw (query_of_plain bs (inr e), e)
          (fun_ext
            (λ s. kept_all_lem true bs (λ x. false) s (inl refl) ∙ or_false (contains_bucket bs s)))
    | inr e ↦ elim (Bool-cases (contains_bucket bs bucket_paused)) [
      | inl f ↦
          rw
            (
              query_of_more bs f e,
              kept_all-append (contains_bucket bs bucket_wait) bs bucket_wait (λ s. false),
              e,
            )
            (fun_ext
              (λ s. kept_all_lem false bs (λ x. false) s (inr e) ∙ or_false (contains_bucket bs s)))
      | inr f ↦
          rw (query_of_plain bs (inl f), e)
            (fun_ext
              (λ s. kept_all_lem false bs (λ x. false) s (inr e) ∙ or_false (contains_bucket bs s)))
    ]
  ]

  pub waiting-query_of :
      (bs : List JobBucket)
      → contains_bucket bs bucket_paused ≡ true
      → waiting (query_of bs) (pos 0) ≡ sizes bucket_wait
  waiting-query_of bs h = elim (Bool-cases (contains_bucket bs bucket_wait)) [
    | inl e ↦ rw (query_of_plain bs (inr e)) (waiting_lem bs (pos 0) (inl e))
    | inr e ↦ rw (query_of_more bs h e) (waiting-append bs (pos 0))
  ]

  pub count_query :
      (fl : Floats) (bs : List JobBucket)
      → count_all fl
          (contains_bucket bs bucket_wait)
          (query_of bs)
          (sizes_reply (query_of bs))
          (tallied (λ s. false), pos 0)
        ≡ (tallied (contains_bucket bs), waiting (query_of bs) (pos 0))
  count_query fl bs =
      count_all_lem fl (contains_bucket bs bucket_wait) (query_of bs) (λ s. false) (pos 0)
      ∙ ap (λ p. (tallied p, waiting (query_of bs) (pos 0))) (kept_all-query_of bs)

  pub length-sizes_reply : (bs : List JobBucket) → (length (sizes_reply bs) == length bs) ≡ true
  length-sizes_reply [] = refl
  length-sizes_reply (b ∷ bs) = ground (arith, length-sizes_reply bs)
