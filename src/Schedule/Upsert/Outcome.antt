-- ===== src/Schedule/Upsert/Outcome.antt =====
-- schedule.go: what may become of an upsert.
use mkq.Prelude.{
  Bool, true, false, ◌∷◌, Option, none, some, Bool-cases, Bytes, ℤ, ◌≤ℤ◌, floor_div, ltb_ℤ, ◌≡◌,
  refl, sym, ◌⊎◌, inl, inr, arith, if◌then◌else◌,
}
use mkq.Failure.{Failure}
use mkq.Keys.{Builder}
use mkq.Redis.{World, History, Result, ok, err}
use mkq.Schedule.Opts.{ScheduleOpts}
use mkq.Schedule.Upsert.{
  never_runs, past_date, Payloads, packed, scheduler_call, upsert_schedule, unless_over,
}
use mkq.Schedule.Options.{ScheduleConfig}

abbrev pub Answer : Type 0
Answer = Result (Unit {0}) × History

date_cases :
    (end_date : Option ℤ) (fire : ℤ)
    → ((d : ℤ) × (end_date ≡ some d) × (ltb_ℤ d fire ≡ true))
      ⊎ ((past_date end_date fire ≡ false) × ((d : ℤ) → end_date ≡ some d → fire ≤ℤ d))
date_cases none fire = inr (refl, λ d e. cc)
date_cases (some x) fire = elim (Bool-cases (ltb_ℤ x fire)) [
  | inl late ↦ inl (x, refl, late)
  | inr early ↦ inr (early, λ d e. let same : x ≡ d = cc in rw (sym same) (ground (arith, early)))
]

pub guard_cases :
    {W : Type 0} (x : Bool) (e : Failure) (rest : Option Failure)
    → (x ≡ true → W)
    → (rest ≡ none) ⊎ ((f : Failure) × (rest ≡ some f) × W)
    → ((if x then some e else rest) ≡ none)
      ⊎ ((f : Failure) × ((if x then some e else rest) ≡ some f) × W)
guard_cases true e rest why r = inr (e, refl, why refl)
guard_cases false e rest why r = r

module _ (w : World) (name : Bytes) (b : Builder) (schedule_id : Bytes) (payload : Result Bytes)
    (c : ScheduleConfig) (h : History) where
  -- What became of an upsert: refused at once, too late for its end date, not encoded, or sent. `Early`
  -- says why it may be refused at once, `Planned` which first firing it has.
  pub data Upserted (Early : Type 0) (Planned : ℤ → Type 0) (o : ScheduleOpts) (arg : ℤ → Bytes)
      (r : Answer) : Type 0 where
    refused : Early → (e : Failure) → r ≡ (err e, h) → Upserted Early Planned o arg r
    too_late :
        (fire d : ℤ)
        → (Early → ⊥)
        → Planned fire
        → c.end_date ≡ some d
        → ltb_ℤ d fire ≡ true
        → r ≡ (err never_runs, h)
        → Upserted Early Planned o arg r
    not_packed :
        (e : Failure)
        → (Early → ⊥)
        → packed w name b o c.template ≡ err e
        → r ≡ (err e, h)
        → Upserted Early Planned o arg r
    sent :
        (fire : ℤ) (body : Bytes) (p : Payloads)
        → (Early → ⊥)
        → Planned fire
        → payload ≡ ok body
        → packed w name b o c.template ≡ ok p
        → ((d : ℤ) → c.end_date ≡ some d → fire ≤ℤ d)
        → r.1
          ≡ scheduler_call w name b schedule_id (arg fire) p body (floor_div (w.now h) 1_000_000)
            ∷ h
        → Upserted Early Planned o arg r

  Result-cases :
      {A : Type 0} (r : Result A) → ((a : A) × (r ≡ ok a)) ⊎ ((e : Failure) × (r ≡ err e))
  Result-cases (ok a) = inl (a, refl)
  Result-cases (err e) = inr (e, refl)

  module _ (Early : Type 0) (Planned : ℤ → Type 0) (o : ScheduleOpts) (arg : ℤ → Bytes)
      (fine : Early → ⊥) where
    in_time :
        (fire : ℤ) (body : Bytes)
        → Planned fire
        → payload ≡ ok body
        → ((d : ℤ) → c.end_date ≡ some d → fire ≤ℤ d)
        → Upserted Early Planned o arg
            (upsert_schedule w name b schedule_id (arg fire) o c.template body h)
    unfolding upsert_schedule
    in_time fire body planned has before = elim (Result-cases (packed w name b o c.template)) [
      | inl (p, e) ↦ sent fire body p fine planned has e before (rw (e) refl)
      | inr (x, e) ↦ not_packed x fine e (rw (e) refl)
    ]

    over :
        (fire : ℤ) (body : Bytes)
        → past_date c.end_date fire ≡ true
        → unless_over w name b schedule_id (arg fire) o c fire body h ≡ (err never_runs, h)
    over fire body e = rw (e) refl

    in_date :
        (fire : ℤ) (body : Bytes)
        → past_date c.end_date fire ≡ false
        → unless_over w name b schedule_id (arg fire) o c fire body h
          ≡ upsert_schedule w name b schedule_id (arg fire) o c.template body h
    in_date fire body e = rw (e) refl

    pub over_or_sent :
        (fire : ℤ) (body : Bytes)
        → Planned fire
        → payload ≡ ok body
        → Upserted Early Planned o arg (unless_over w name b schedule_id (arg fire) o c fire body h)
    over_or_sent fire body planned has = elim (date_cases c.end_date fire) [
      | inl (d, e, late) ↦ too_late fire d fine planned e late (over fire body (rw (e) late))
      | inr (early, before) ↦ rw (in_date fire body early) (in_time fire body planned has before)
    ]
