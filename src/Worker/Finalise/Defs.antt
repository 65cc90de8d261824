-- ===== src/Worker/Finalise/Defs.antt =====
-- worker.go: `runHandler` and `finalise`.
use mkq.Prelude.{
  zero, suc, Option, none, some, Bytes, codes, StringMap, get, ℤ, pos, negsuc, if◌then◌else◌, ◌++◌,
  [], ◌∷◌,
}
use mkq.Failure.{Failure, plain, as_delayed}
use mkq.Backoff.{BackoffContext}
use mkq.JobOpts.{JobOpts, parse_job_opts}
use mkq.Redis.{
  Handled, returned, failed_with, panicked, World, M, Result, ok, err, ◌>>=◌, pure, attempt,
}
use mkq.Worker.Failures.{FailureHistory, build_failure_history}
use mkq.Worker.Retry.{next_attempt, should_retry, compute_retry_delay}
use mkq.Worker.Finish.{
  Worker, Prefetched, finish_completed, finish_failed, retry_immediate, retry_delayed,
  move_to_delayed_keeping_attempts, fetch_atm,
}

pub data Outcome : Type 0 where
  success : Bytes → Outcome
  failure : Failure → Bytes → Outcome

pub data Status : Type 0 where
  completed failed retrying delayed error : Status

-- What `finalise` returns; its error is nil except with the status `error`.
pub record Finalised : Type 0 where
  pub prefetched : Option Prefetched
  pub status : Status
  pub error : Option Failure

module _ (w : World) where
  -- A panic is an error like any other, whatever value it carried.
  unfoldable pub run_handler : Handled → Outcome
  run_handler (returned v) = success v
  run_handler (failed_with e) = failure e (w.error_text e)
  run_handler (panicked r stack) =
      failure (plain (codes "mkq: handler panic: " ++ r)) (codes "panic: " ++ r ++ 10 ∷ stack)

abbrev pub finished : Status → Result (Option Prefetched) → Finalised
finished s (ok p) = record { prefetched = p; status = s; error = none }
finished s (err e) = record { prefetched = none; status = error; error = some e }

abbrev pub handed_back : Status → Result (Unit {0}) → Finalised
handed_back s (ok u) = record { prefetched = none; status = s; error = none }
handed_back s (err e) = record { prefetched = none; status = error; error = some e }

module _ (w : World) (k : Worker) (job_id token : Bytes) (job_map : StringMap) where
  abbrev pub opts_of_job : JobOpts
  opts_of_job = parse_job_opts w.floats w.parse_json (get job_map (codes "opts"))

  abbrev pub context_of : ℤ → Failure → BackoffContext
  context_of atm e = record {
    job_id = job_id;
    name = get job_map (codes "name");
    attempts_made = next_attempt atm;
    err = e;
    backoff_type = [];
  }

  -- The delay decided, the sign says what becomes of the job.
  unfoldable pub retry_after : Failure → Bytes → FailureHistory → ℤ → M Finalised
  retry_after e reason hist (negsuc n) = do
    r ← attempt (finish_failed w k job_id token opts_of_job reason hist)
    pure (finished failed r)
  retry_after e reason hist (pos (suc n)) = do
    r ← attempt (retry_delayed w k job_id token (pos (suc n)) reason hist)
    pure (handed_back retrying r)
  retry_after e reason hist (pos zero) = do
    r ← attempt (retry_immediate w k job_id token opts_of_job.lifo reason hist)
    pure (handed_back retrying r)

  unfoldable pub settle_failure : Failure → Bytes → FailureHistory → ℤ → M Finalised
  unfolding retry_after
  settle_failure e reason hist atm h =
      if should_retry opts_of_job atm e
      then retry_after e reason hist
          (compute_retry_delay w.floats k.cfg opts_of_job.backoff (context_of atm e) (w.rng h)) h
      else (do
        r ← attempt (finish_failed w k job_id token opts_of_job reason hist)
        pure (finished failed r))
          h

  -- An error that asks for a delay is no failure: the attempt count is not even read.
  unfoldable pub settle : Failure → Bytes → Option ℤ → M Finalised
  unfolding settle_failure
  settle e reason (some d) = do
    r ← attempt (move_to_delayed_keeping_attempts w k job_id token d)
    pure (handed_back delayed r)
  settle e reason none = do
    atm ← fetch_atm w k job_id job_map
    settle_failure e reason (build_failure_history w job_map reason) atm

  unfoldable pub finalise : Outcome → M Finalised
  unfolding settle
  finalise (success v) = do
    r ← attempt (finish_completed w k job_id token opts_of_job v)
    pure (finished completed r)
  finalise (failure e reason) = settle e reason (as_delayed e)
