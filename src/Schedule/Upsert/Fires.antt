-- ===== src/Schedule/Upsert/Fires.antt =====
-- schedule.go: when an upsert sends a schedule, and that its first firing is not past its end.
use mkq.Prelude.{
  Bool, true, false, ◌||◌, List, Option, none, some, Bool-cases, Bytes, codes, is_empty, ℤ, pos,
  ◌≤ℤ◌, floor_div, ltb_ℤ, leb_ℤ, ◌≡◌, refl, sym, ◌∙◌, ◌⊎◌, inl, inr, arith, if◌then◌else◌,
}
use mkq.Failure.{Failure}
use mkq.Decimal.{show_int}
use mkq.Cron.{cron_next}
use mkq.Keys.{Builder}
use mkq.Redis.{World, History, Result, ok, err}
use mkq.Schedule.Opts.{not_empty}
use mkq.Schedule.Upsert.{
  both_starts, every_fire, every_opts, pattern_opts, every_refusal, every_data, unless_refused,
  upsert_schedule_every, pattern_refusal, fire_from, by_pattern, pattern_fires,
  upsert_schedule_pattern,
}
use mkq.Schedule.Options.{ScheduleConfig, ScheduleOption, no_schedule_config, set_schedule_options}
use mkq.Schedule.Upsert.Outcome.{Upserted, refused, guard_cases, over_or_sent}

never_none : (e : Failure) → (some e ≡ none) → ⊥
never_none e h = cc

guard_none :
    (x : Bool) (e : Failure) (rest : Option Failure)
    → (if x then some e else rest) ≡ none
    → (x ≡ false) × (rest ≡ none)
guard_none true e rest h = cc
guard_none false e rest h = (refl, h)

-- Why an upsert at fixed intervals is refused at once.
abbrev pub NoEvery : Bytes → ℤ → Result Bytes → ScheduleConfig → Type 0
NoEvery schedule_id every payload c =
    (is_empty schedule_id ≡ true)
    ⊎ (every ≤ℤ pos 0)
    ⊎ ((not_empty c.tz || c.immediately) ≡ true)
    ⊎ ((e : Failure) × (payload ≡ err e))

-- Why an upsert by a pattern is refused at once, `t` being what the search for its first match gave.
abbrev pub NoPattern : Bytes → Result Bytes → Result ℤ → ScheduleConfig → Type 0
NoPattern schedule_id payload t c =
    (is_empty schedule_id ≡ true)
    ⊎ ((d : ℤ) × (c.start_date ≡ some d) × (c.immediately ≡ true))
    ⊎ ((e : Failure) × (t ≡ err e))
    ⊎ ((e : Failure) × (payload ≡ err e))

module _ (w : World) (name : Bytes) (b : Builder) (schedule_id : Bytes) (payload : Result Bytes)
    (os : List ScheduleOption) (h : History) where
  abbrev config : ScheduleConfig
  config = set_schedule_options w.floats os no_schedule_config

  abbrev pub first_match : Bytes → Result ℤ
  first_match pattern =
      cron_next w pattern config.tz (fire_from w name b config.start_date (w.now h))

  every_refusal_cases :
      (every : ℤ) (s : Bytes) (c : ScheduleConfig)
      → (every_refusal w name b s every c ≡ none)
        ⊎ ((e : Failure) × (every_refusal w name b s every c ≡ some e) × NoEvery s every payload c)
  every_refusal_cases every s c =
      guard_cases (is_empty s) _ _ (λ e. inl e)
        (guard_cases (leb_ℤ every (pos 0)) _ _ (λ e. inr (inl (ground (arith, e))))
          (guard_cases (not_empty c.tz || c.immediately) _ none (λ e. inr (inr (inl e)))
            (inl refl)))

  -- The later one of now and the start date, if there is one.
  abbrev EveryStart : ℤ → Type 0
  EveryStart fire =
      (w.now h ≤ℤ fire)
      × ((d : ℤ) → config.start_date ≡ some d → d ≤ℤ fire)
      × ((fire ≡ w.now h) ⊎ (config.start_date ≡ some fire))

  every_fire-IsLatest :
      (start : Option ℤ) (now : ℤ)
      → (now ≤ℤ every_fire start now)
        × ((d : ℤ) → start ≡ some d → d ≤ℤ every_fire start now)
        × ((every_fire start now ≡ now) ⊎ (start ≡ some (every_fire start now)))
  every_fire-IsLatest none now = (omega arith, λ d e. cc, inl refl)
  every_fire-IsLatest (some x) now = elim (Bool-cases (ltb_ℤ now x)) [
    | inl e ↦
        rw (e)
          (ground (arith, e), (λ d f. let same : x ≡ d = cc in rw (same) (omega arith)), inr refl)
    | inr e ↦
        rw (e) (
          omega arith,
          (λ d f. let same : x ≡ d = cc in rw (sym same) (ground (arith, e))),
          inl refl,
        )
  ]

  every_fine :
      (every : ℤ)
      → every_refusal w name b schedule_id every config ≡ none
      → (body : Bytes) → payload ≡ ok body
      → NoEvery schedule_id every payload config
      → ⊥
  every_fine every same body has why =
      let (named, same') = guard_none (is_empty schedule_id) _ _ same in
      let (positive, same'') = guard_none (leb_ℤ every (pos 0)) _ _ same' in
      let (plain_mode, over) =
        guard_none (not_empty config.tz || config.immediately) _ none same'' in
      elim why [
        | inl e ↦ cc
        | inr r ↦ elim r [
          | inl e ↦ ground (arith, positive, e)
          | inr q ↦ elim q [ inl e ↦ cc | inr (x, e) ↦ cc ]
        ]
      ]

  abbrev zero_arg : ℤ → Bytes
  zero_arg fire = codes "0"

  every_go :
      (every : ℤ) (o : Option Failure)
      → every_refusal w name b schedule_id every config ≡ o
      → (o ≡ none) ⊎ ((e : Failure) × (o ≡ some e) × NoEvery schedule_id every payload config)
      → (r : Result Bytes) → payload ≡ r
      → Upserted w name b schedule_id payload config h
          (NoEvery schedule_id every payload config)
          EveryStart
          (every_opts w name b every config)
          zero_arg
          (unless_refused w name b o (every_data w name b schedule_id every config r) h)
  every_go every none same why (ok body) has =
      over_or_sent w name b schedule_id payload config h _ EveryStart
        (every_opts w name b every config) zero_arg (every_fine every same body has)
        (every_fire config.start_date (w.now h)) body
        (every_fire-IsLatest config.start_date (w.now h)) has
  every_go every none same why (err x) has = refused (inr (inr (inr (x, has)))) _ refl
  every_go every (some x) same (inl e) r has = cc
  every_go every (some x) same (inr (e, equal, why)) r has = refused why _ refl

  pattern_refusal_cases :
      (t : Result ℤ) (c : ScheduleConfig)
      → (pattern_refusal w name b schedule_id c ≡ none)
        ⊎ ((e : Failure) × (pattern_refusal w name b schedule_id c ≡ some e)
            × NoPattern schedule_id payload t c)
  pattern_refusal_cases t c =
      guard_cases (is_empty schedule_id) _ _ (λ e. inl e)
        (started c.start_date c.immediately refl refl)
    where
      started :
          (d : Option ℤ) (now : Bool)
          → c.start_date ≡ d
          → c.immediately ≡ now
          → let o : Option Failure = elim d [
            | none ↦ none
            | some x ↦ if now then some both_starts else none
          ] in
            (o ≡ none) ⊎ ((e : Failure) × (o ≡ some e) × NoPattern schedule_id payload t c)
      started none now e f = inl refl
      started (some x) now e f =
          guard_cases now both_starts none (λ g. inr (inl (x, e, f ∙ g))) (inl refl)

  abbrev PatternStart : Bytes → ℤ → Type 0
  PatternStart pattern fire =
      (t : ℤ) × (first_match pattern ≡ ok t) × (fire ≡ (if config.immediately then w.now h else t))

  abbrev millis_arg : ℤ → Bytes
  millis_arg fire = show_int (floor_div fire 1_000_000)

  pattern_fine :
      (pattern body : Bytes) (t : ℤ)
      → pattern_refusal w name b schedule_id config ≡ none
      → first_match pattern ≡ ok t
      → payload ≡ ok body
      → NoPattern schedule_id payload (first_match pattern) config
      → ⊥
  pattern_fine pattern body t same found has why =
      let (named, same') = guard_none (is_empty schedule_id) _ _ same in
      elim why [
        | inl e ↦ cc
        | inr r ↦ elim r [
          | inl (d, e, f) ↦ never_none both_starts (rw (e, f) at same')
          | inr q ↦ elim q [ inl (x, e) ↦ cc | inr (x, e) ↦ cc ]
        ]
      ]

  pattern_go :
      (pattern : Bytes) (r : Result Bytes) (t : Result ℤ)
      → pattern_refusal w name b schedule_id config ≡ none
      → payload ≡ r
      → first_match pattern ≡ t
      → Upserted w name b schedule_id payload config h
          (NoPattern schedule_id payload (first_match pattern) config)
          (PatternStart pattern)
          (pattern_opts w name b pattern config)
          millis_arg
          (by_pattern w name b schedule_id pattern config r t h)
  pattern_go pattern r (err x) same has found = refused (inr (inr (inl (x, found)))) _ refl
  pattern_go pattern (err x) (ok t) same has found = refused (inr (inr (inr (x, has)))) _ refl
  pattern_go pattern (ok body) (ok t) same has found =
      over_or_sent w name b schedule_id payload config h _ (PatternStart pattern)
        (pattern_opts w name b pattern config) millis_arg
        (pattern_fine pattern body t same found has) (if config.immediately then w.now h else t)
        body (t, found, refl) has

  unless_refused_lem :
      (pattern : Bytes) (o : Option Failure)
      → pattern_refusal w name b schedule_id config ≡ o
      → (o ≡ none)
        ⊎ ((e : Failure) × (o ≡ some e)
            × NoPattern schedule_id payload (first_match pattern) config)
      → Upserted w name b schedule_id payload config h
          (NoPattern schedule_id payload (first_match pattern) config)
          (PatternStart pattern)
          (pattern_opts w name b pattern config)
          millis_arg
          (unless_refused w name b o (pattern_fires w name b schedule_id pattern config payload) h)
  unless_refused_lem pattern none same why =
      pattern_go pattern payload (first_match pattern) same refl refl
  unless_refused_lem pattern (some x) same (inl e) = cc
  unless_refused_lem pattern (some x) same (inr (e, equal, why)) = refused why _ refl

  -- What became of both upserts.
  abbrev pub Both : ℤ → Bytes → Type 0
  Both every pattern =
      Upserted w name b schedule_id payload config h (NoEvery schedule_id every payload config)
        EveryStart (every_opts w name b every config) zero_arg
        (upsert_schedule_every w name b schedule_id every payload os h)
      × Upserted w name b schedule_id payload config h
          (NoPattern schedule_id payload (first_match pattern) config) (PatternStart pattern)
          (pattern_opts w name b pattern config) millis_arg
          (upsert_schedule_pattern w name b schedule_id pattern payload os h)

  -- Whatever the options, an upsert does one of four things. It is refused for a reason of its mode: no id,
  -- an interval that is not positive, an option of the other mode, a start date for an immediate firing, a
  -- pattern that cannot be read, or a payload that cannot be encoded. Or there is no such reason, and its
  -- first firing lies behind the end date, and it is refused for that; or its options cannot be encoded; or
  -- it makes one call of addJobScheduler with its options, and the first firing is not behind the end date.
  -- At fixed intervals the first firing is now or the start date, the later; by a pattern it is the first
  -- match from now or from the start date on, and now for an immediate one.
  pub upserts-Upserted : (every : ℤ) (pattern : Bytes) → Both every pattern
  unfolding upsert_schedule_every upsert_schedule_pattern
  upserts-Upserted every pattern = (
    every_go every _ refl (every_refusal_cases every schedule_id config) payload refl,
    unless_refused_lem pattern _ refl (pattern_refusal_cases (first_match pattern) config),
  )
