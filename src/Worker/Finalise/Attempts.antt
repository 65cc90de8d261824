-- ===== src/Worker/Finalise/Attempts.antt =====
-- How often a job that keeps failing is run, and what the worker reports of it.
use mkq.Prelude.{
  ℕ, zero, suc, ◌+◌, ◌-◌, ◌≤◌, ◌<◌, Bool, true, false, none, Bytes, codes, ◌++◌, [], ◌≡◌, refl,
  arith, ℤ, pos, negsuc, ◌≤ℤ◌, max_int64, ltb, if◌then◌else◌,
}
use mkq.Failure.{Failure, plain, is_unrecoverable, as_delayed}
use mkq.JobOpts.{JobOpts}
use mkq.Keys
use mkq.Redis.{World, panicked}
use mkq.Worker.Retry.{next_attempt}
use mkq.Worker.Retry.Attempts.{next_attempt-pos, should_retry-pos}
use mkq.Worker.Finalise.Defs.{failure, run_handler}
use mkq.Worker.Finalise.Calls.{Effect, finish}
use mkq.Worker.Finalise.Verdict.{by_delay, verdict}

abbrev pub is_final : Effect → Bool
is_final (finish t) = true
is_final _ = false

-- How often a job is run that fails every time with the same error. Behind a run that is not the last
-- the attempt is counted, which is what the scripts that hand the job back do; `delay` is the delay that
-- the strategy gives at each count.
pub executions : ℕ → JobOpts → Failure → (ℤ → ℤ) → ℤ → ℕ
executions zero o e delay atm = 0
executions (suc f) o e delay atm =
    let more = executions f o e delay (next_attempt atm) in
    if is_final (verdict o (failure e []) atm (delay atm)) then 1 else suc more

by_delay-again : (lifo : Bool) (d : ℤ) → pos 0 ≤ℤ d → is_final (by_delay lifo d) ≡ false
by_delay-again lifo (pos zero) h = refl
by_delay-again lifo (pos (suc n)) h = refl
by_delay-again lifo (negsuc n) h = absurd (omega arith)

-- Whether a failed run is the last, for a plain error and delays that are not negative.
last_run :
    (o : JobOpts) (e : Failure) (a n : ℕ) (d : ℤ)
    → o.attempts ≡ pos a
    → a ≤ max_int64
    → n < a
    → is_unrecoverable e ≡ false
    → as_delayed e ≡ none
    → pos 0 ≤ℤ d
    → is_final (verdict o (failure e []) (pos n) d) ≡ (if ltb (n + 1) a then false else true)
last_run o e a n d ha fits h he hd hpos =
    rw (hd, should_retry-pos o e a n ha fits h he) (ground (arith, by_delay-again o.lifo d hpos))

module _ (o : JobOpts) (e : Failure) (delay : ℤ → ℤ) (a : ℕ) (ha : o.attempts ≡ pos a)
    (fits : a ≤ max_int64) (he : is_unrecoverable e ≡ false) (hd : as_delayed e ≡ none)
    (hpos : (n : ℤ) → pos 0 ≤ℤ delay n) where
  executions_from : (f n : ℕ) → n < a → a ≤ f + n → executions f o e delay (pos n) ≡ a - n
  unfolding executions
  executions_from zero n h enough = absurd (omega arith)
  executions_from (suc f) n h enough =
      rw
        (
          last_run o e a n (delay (pos n)) ha fits h he hd (hpos (pos n)),
          next_attempt-pos n (omega arith),
        )
        (ground (arith, executions_from f (n + 1)))

  -- A job with a positive number of attempts that fails every time, with the same error, neither
  -- unrecoverable nor a DelayedError, and under delays that are not negative, is run exactly that often:
  -- the last failure is final, and no earlier one is.
  pub executions-eq-attempts : (f : ℕ) → 0 < a → a ≤ f → executions f o e delay (pos 0) ≡ a
  executions-eq-attempts f h enough = rw (executions_from f 0 h (omega arith)) (omega arith)

-- A panic in the handler of a job with attempts is one failed attempt like any other, whatever value it
-- carried: below the last attempt the delay decides, and at the last the job has failed. It never ends
-- the retries early, nor puts the job off uncounted.
panic-is_plain :
    (w : World) (r stack : Bytes) (o : JobOpts) (a n : ℕ) (d : ℤ)
    → o.attempts ≡ pos a
    → a ≤ max_int64
    → n < a
    → verdict o (run_handler w (panicked r stack)) (pos n) d
      ≡ (if ltb (n + 1) a then by_delay o.lifo d else finish Keys.to_failed)
unfolding run_handler as_delayed is_unrecoverable
panic-is_plain w r stack o a n d ha fits h =
    rw (should_retry-pos o (plain (codes "mkq: handler panic: " ++ r)) a n ha fits h refl)
