-- ===== src/Worker/Finalise/Reports.antt =====
-- worker.go: what `finalise` reports agrees with what it did and with what Redis answered.
pub mod Answers
use mkq.Prelude.{
  zero, suc, Bool, List, [], ◌∷◌, ◌++◌, Option, none, some, Bytes, codes, ◌≡◌, refl, ◌⊎◌,
  Bool-cases, inl, inr, ℤ, pos, negsuc, StringMap,
}
use mkq.Failure.{Failure, as_delayed, wrap}
use mkq.Keys
use mkq.Keys.{Target}
use mkq.JobOpts.{JobOpts, RetentionLimit}
use mkq.Proto.{encode_job_fields, encode_move_to_finished_opts, items}
use mkq.Decimal.{show_int}
use mkq.Reply.{Acquired, got_job, no_job, parse_move_to_active_result}
use mkq.Redis.{
  Value, Values, nil, str, int, float, other, arr, Packed, Call, World, Result, ok, err, History,
  encoded, wrapped, checked, M, ◌>>=◌, and_then, with_context, ask, pack_str, pack_list,
}
use mkq.Worker.Finish.{
  Worker, Prefetched, in_ms, fetch_atm, check_code, interpret_finished, send_finished, finish_opts,
  run_move_to_finished, finish_completed, finish_failed, retry_immediate, retry_delayed,
  move_to_delayed_keeping_attempts,
}
use mkq.Worker.Failures.{FailureHistory, attempt_history_field, build_failure_history}
use mkq.Worker.Retry.{should_retry}
use mkq.Worker.Finalise.Defs.{
  Outcome, success, failure, Status, completed, failed, retrying, delayed, error, Finalised,
  finished, handed_back, opts_of_job, retry_after, settle_failure, settle, finalise,
}
use mkq.Worker.Finalise.Calls.{Effect, finish, postpone, again_after, again_now}
use mkq.Worker.Finalise.Verdict.{
  by_delay, on_failure, verdict, attempts_so_far, delay_of, before, reads,
}
use mkq.Worker.Finalise.Reports.Answers.{
  Reports, finish_completed-Reports, finish_failed-Reports, retry_immediate-Reports,
  retry_delayed-Reports, move_to_delayed_keeping_attempts-Reports,
}

module _ (w : World) (k : Worker) (job_id token : Bytes) (job_map : StringMap) where
  retry_after-Reports :
      (e : Failure) (reason : Bytes) (d : ℤ) (h : History)
      → let q =
          retry_after w k job_id token job_map e reason
            (build_failure_history w job_map reason)
            d
            h in
        Reports w token (by_delay (opts_of_job w k job_id token job_map).lifo d) h q.0 q.1
  unfolding retry_after
  retry_after-Reports e reason (negsuc n) h = finish_failed-Reports w k job_id token h _ _ _
  retry_after-Reports e reason (pos zero) h = retry_immediate-Reports w k job_id token h _ _ _
  retry_after-Reports e reason (pos (suc n)) h =
      retry_delayed-Reports w k job_id token h _ (pos 0) _ _

  settle-Reports :
      (e : Failure) (reason : Bytes) (o : Option ℤ) (h : History)
      → let q = settle w k job_id token job_map e reason o h in
        Reports w token
          (on_failure
            (opts_of_job w k job_id token job_map)
            e
            (attempts_so_far w k job_id token job_map h)
            (delay_of w k job_id token job_map (failure e reason) h)
            o)
          (reads w k job_id token job_map o h)
          q.0
          q.1
  unfolding settle settle_failure fetch_atm
  settle-Reports e reason (some d) h =
      move_to_delayed_keeping_attempts-Reports w k job_id token h d (pos 0)
  settle-Reports e reason none h =
      elim (Bool-cases (
        should_retry (opts_of_job w k job_id token job_map)
          (attempts_so_far w k job_id token job_map h) e)) [
            | inl again ↦ rw again (retry_after-Reports e reason _ _)
            | inr stop ↦ rw stop (finish_failed-Reports w k job_id token _ _ _ _)
          ]

  -- finalise always returns. Behind the read of a failed job's counter either the encoder has failed, no
  -- call is made and the status is `error`, or one call is made. When that call fails, answers with a
  -- negative number, or (moveToFinished) with a reply that does not parse, the status is `error`, with an
  -- error and no next job; otherwise there is no error, the status is that of the verdict's effect, and
  -- the next job is the one that the reply of moveToFinished holds, if it holds one.
  pub finalise-Reports :
      (out : Outcome) (h : History)
      → let q = finalise w k job_id token job_map out h in
        Reports w token
          (verdict
            (opts_of_job w k job_id token job_map)
            out
            (attempts_so_far w k job_id token job_map h)
            (delay_of w k job_id token job_map out h))
          (before w k job_id token job_map out h)
          q.0
          q.1
  unfolding finalise
  finalise-Reports (success v) h = finish_completed-Reports w k job_id token h _ v
  finalise-Reports (failure e reason) h = settle-Reports e reason (as_delayed e) h
