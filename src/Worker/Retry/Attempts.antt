-- ===== src/Worker/Retry/Attempts.antt =====
-- What `shouldRetry` comes to for attempts that are counted from 0, and who decides on the delay.
use mkq.Prelude.{
  ℕ, ◌+◌, ◌≤◌, ◌<◌, Bool, refl, true, false, Option, none, some, ◌≡◌, arith, inl, inr, ◌⊎◌, ℤ, pos,
  max_int64, ltb, ltb_ℤ,
}
use mkq.Failure.{Failure, is_unrecoverable}
use mkq.Backoff.{Floats, BackoffStrategy, BackoffContext, RetryDelayFunc}
use mkq.JobOpts.{JobOpts}
use mkq.Worker.Config.{WorkerConfig}
use mkq.Worker.Retry.{type_of, next_attempt, should_retry, compute_retry_delay}

pub next_attempt-pos : (n : ℕ) → n < max_int64 → next_attempt (pos n) ≡ pos (n + 1)
unfolding next_attempt
next_attempt-pos n h = ground arith

pub should_retry-pos :
    (o : JobOpts) (e : Failure) (a n : ℕ)
    → o.attempts ≡ pos a
    → a ≤ max_int64
    → n < a
    → is_unrecoverable e ≡ false
    → should_retry o (pos n) e ≡ ltb (n + 1) a
unfolding should_retry next_attempt
should_retry-pos o e a n ha fits h he = rw (he, ha) (ground arith)

answer_cases :
    (a : Option (ℤ × Bool))
    → (a ≡ none) ⊎ ((d : ℤ) × ((a ≡ some (d, true)) ⊎ (a ≡ some (d, false))))
answer_cases none = inl refl
answer_cases (some (d, true)) = inr (d, inl refl)
answer_cases (some (d, false)) = inr (d, inr refl)

module _ (fl : Floats) (c : WorkerConfig) (b : Option BackoffStrategy) (bc : BackoffContext) (r : ℕ)
    (counted : ltb_ℤ bc.attempts_made (pos 1) ≡ false) where
  -- The context that the user's functions see: the backoff type is filled in.
  abbrev seen : BackoffContext
  seen = record bc { backoff_type = type_of b bc.backoff_type }

  -- The answer of an override, where it gives one.
  abbrev pub told : Option (ℤ × Bool) → ℤ → ℤ
  told (some (d, true)) without = d
  told _ without = without

  -- Once an attempt is counted, the answer of the retry-delay override is the delay, whatever the backoff,
  -- even without one; it stands as it is, the sign included. An override that declines or panics leaves
  -- the delay exactly as it is without one.
  pub compute_retry_delay-override :
      (fn : RetryDelayFunc)
      → c.retry_delay_override ≡ some fn
      → compute_retry_delay fl c b bc r
        ≡ told (fn seen) (compute_retry_delay fl (record c { retry_delay_override = none }) b bc r)
  unfolding compute_retry_delay
  compute_retry_delay-override fn e = elim (answer_cases (fn seen)) [
    | inl panic ↦ rw (counted, e, panic)
    | inr (d, inl told_so) ↦ rw (counted, e, told_so)
    | inr (d, inr declined) ↦ rw (counted, e, declined)
  ]
