-- ===== src/Worker/Retry.antt =====
-- worker.go: whether a failed job is retried, and after what delay.
pub mod Attempts
use mkq.Prelude.{
  ℕ, Bool, true, false, ◌||◌, Option, none, some, Bytes, eq_bytes, ℤ, pos, ◌+ℤ◌, ltb_ℤ, leb_ℤ,
  wrap64, if◌then◌else◌,
}
use mkq.Failure.{Failure, is_unrecoverable}
use mkq.Backoff.{
  Floats, float_zero, BackoffStrategy, BackoffContext, CustomBackoffFunc, BackoffFunc,
  RetryDelayFunc, fixed, exponential, compute_backoff_delay, apply_jitter,
}
use mkq.JobOpts.{JobOpts}
use mkq.Worker.Config.{WorkerConfig}

-- `attemptsMade + 1` in an int.
unfoldable pub next_attempt : ℤ → ℤ
next_attempt n = wrap64 (n +ℤ pos 1)

unfoldable pub should_retry : JobOpts → ℤ → Failure → Bool
unfolding next_attempt
should_retry o attempts_made e =
    if is_unrecoverable e
    then false
    else if leb_ℤ o.attempts (pos 0)
    then false
    else ltb_ℤ (next_attempt attempts_made) o.attempts

-- A panic is recovered from, and stands for an immediate retry.
abbrev recovered : Option ℤ → ℤ
recovered none = pos 0
recovered (some d) = d

module _ (c : WorkerConfig) where
  abbrev older_strategy : Option CustomBackoffFunc → BackoffContext → ℤ
  older_strategy none bc = pos 0
  older_strategy (some fn) bc = recovered (fn bc.attempts_made)

  abbrev newer_strategy : Option BackoffFunc → BackoffContext → ℤ
  newer_strategy none bc = older_strategy c.backoff_strategy bc
  newer_strategy (some fn) bc = recovered (fn bc)

  unfoldable pub call_backoff_strategy : BackoffContext → ℤ
  call_backoff_strategy bc = newer_strategy c.backoff_func bc

-- The override's answer; a panic, like a declined call, is no opinion.
abbrev opinion : Option (ℤ × Bool) → Option ℤ
opinion none = none
opinion (some (d, true)) = some d
opinion (some (d, false)) = none

unfoldable pub call_retry_delay_override : Option RetryDelayFunc → BackoffContext → Option ℤ
call_retry_delay_override none bc = none
call_retry_delay_override (some fn) bc = opinion (fn bc)

abbrev pub type_of : Option BackoffStrategy → Bytes → Bytes
type_of none old = old
type_of (some b) old = b.kind

module _ (fl : Floats) (c : WorkerConfig) where
  -- The `switch b.Type`; `r` is what `rng()` returns.
  unfoldable pub strategy_delay : Option BackoffStrategy → BackoffContext → ℕ → ℤ
  unfolding call_backoff_strategy
  strategy_delay none bc r = pos 0
  strategy_delay (some b) bc r =
      if eq_bytes b.kind fixed || eq_bytes b.kind exponential
      then (let base = compute_backoff_delay (some b) bc.attempts_made in
          if fl.lt float_zero b.jitter then apply_jitter fl base b.jitter r else base)
      else call_backoff_strategy c bc

  abbrev override_or : Option ℤ → ℤ → ℤ
  override_or none d = d
  override_or (some o) d = o

  unfoldable pub compute_retry_delay : Option BackoffStrategy → BackoffContext → ℕ → ℤ
  unfolding strategy_delay call_retry_delay_override
  compute_retry_delay b bc r =
      if ltb_ℤ bc.attempts_made (pos 1)
      then pos 0
      else (let bc' = record bc { backoff_type = type_of b bc.backoff_type } in
          override_or (call_retry_delay_override c.retry_delay_override bc')
            (strategy_delay b bc' r))
