-- ===== src/Worker/Finalise/Verdict.antt =====
-- What becomes of a job, told apart from how `finalise` brings it about.
use mkq.Prelude.{
  zero, suc, Bool, ◌∷◌, Option, none, some, Bytes, codes, StringMap, Bool-cases, inl, inr, ℤ, pos,
  negsuc, max_ℤ, if◌then◌else◌,
}
use mkq.Failure.{Failure, as_delayed}
use mkq.JobOpts.{JobOpts}
use mkq.Keys
use mkq.Redis.{World, hget, History}
use mkq.Worker.Failures.{build_failure_history}
use mkq.Worker.Retry.{should_retry, compute_retry_delay}
use mkq.Worker.Finish.{Worker, in_ms, read_atm, fetch_atm}
use mkq.Worker.Finalise.Defs.{
  Outcome, success, failure, opts_of_job, context_of, retry_after, settle_failure, settle, finalise,
}
use mkq.Worker.Finalise.Calls.{
  Effect, finish, postpone, again_after, again_now, Packs, Adds, finish_completed-Adds,
  finish_failed-Adds, retry_immediate-Adds, retry_delayed-Adds,
  move_to_delayed_keeping_attempts-Adds,
}

-- By the sign of the delay: give up, retry at once, retry later (in whole ms, at least one).
abbrev pub by_delay : Bool → ℤ → Effect
by_delay lifo (negsuc n) = finish Keys.to_failed
by_delay lifo (pos zero) = again_now lifo
by_delay lifo (pos (suc n)) = again_after (max_ℤ (in_ms (pos (suc n))) (pos 1))

abbrev pub on_failure : JobOpts → Failure → ℤ → ℤ → Option ℤ → Effect
on_failure o e atm d (some wait) = postpone (max_ℤ (in_ms wait) (pos 1))
on_failure o e atm d none =
    if should_retry o atm e then by_delay o.lifo d else finish Keys.to_failed

-- The effect of an outcome, given the attempts made before it and the delay that would follow.
abbrev pub verdict : JobOpts → Outcome → ℤ → ℤ → Effect
verdict o (success v) atm d = finish Keys.to_completed
verdict o (failure e reason) atm d = on_failure o e atm d (as_delayed e)

module _ (w : World) (k : Worker) (job_id token : Bytes) (job_map : StringMap) where
  -- The calls before the one that settles the job: a failure first reads the attempt counter.
  abbrev pub reads : Option ℤ → History → History
  reads (some d) h = h
  reads none h = hget (Keys.job k.keys job_id) (codes "atm") ∷ h

  abbrev pub before : Outcome → History → History
  before (success v) h = h
  before (failure e reason) h = reads (as_delayed e) h

  -- The attempts made, as Redis holds them when the job fails.
  abbrev pub attempts_so_far : History → ℤ
  attempts_so_far h = read_atm w k (w.redis h (hget (Keys.job k.keys job_id) (codes "atm"))) job_map

  abbrev pub delay_of : Outcome → History → ℤ
  delay_of (success v) h = pos 0
  delay_of (failure e reason) h =
      compute_retry_delay w.floats k.cfg (opts_of_job w k job_id token job_map).backoff
        (context_of w k job_id token job_map (attempts_so_far h) e)
        (w.rng (hget (Keys.job k.keys job_id) (codes "atm") ∷ h))

module _ (w : World) (k : Worker) (job_id token : Bytes) (job_map : StringMap) (p : Packs w) where
  retry_after-Adds :
      (e : Failure) (reason : Bytes) (d : ℤ) (h : History)
      → Adds k job_id token
          (by_delay (opts_of_job w k job_id token job_map).lifo d)
          h
          (retry_after w k job_id token job_map e reason
            (build_failure_history w job_map reason)
            d
            h).1
  unfolding retry_after
  retry_after-Adds e reason (negsuc n) h = finish_failed-Adds w k job_id token p h _ _ _
  retry_after-Adds e reason (pos zero) h = retry_immediate-Adds w k job_id token p h _ _ _
  retry_after-Adds e reason (pos (suc n)) h = retry_delayed-Adds w k job_id token p h _ _ _

  settle-Adds :
      (e : Failure) (reason : Bytes) (o : Option ℤ) (h : History)
      → Adds k job_id token
          (on_failure
            (opts_of_job w k job_id token job_map)
            e
            (attempts_so_far w k job_id token job_map h)
            (delay_of w k job_id token job_map (failure e reason) h)
            o)
          (reads w k job_id token job_map o h)
          (settle w k job_id token job_map e reason o h).1
  unfolding settle settle_failure fetch_atm
  settle-Adds e reason (some d) h = move_to_delayed_keeping_attempts-Adds w k job_id token p h d
  settle-Adds e reason none h =
      elim (Bool-cases (
        should_retry (opts_of_job w k job_id token job_map)
          (attempts_so_far w k job_id token job_map h) e)) [
            | inl again ↦ rw again (retry_after-Adds e reason _ _)
            | inr stop ↦ rw stop (finish_failed-Adds w k job_id token p _ _ _ _)
          ]

  -- If the encoder does not fail: apart from reading the counter of a failed job, finalise makes exactly
  -- one call, and it has the effect of the verdict, whatever Redis answers.
  pub finalise-Adds :
      (out : Outcome) (h : History)
      → Adds k job_id token
          (verdict
            (opts_of_job w k job_id token job_map)
            out
            (attempts_so_far w k job_id token job_map h)
            (delay_of w k job_id token job_map out h))
          (before w k job_id token job_map out h)
          (finalise w k job_id token job_map out h).1
  unfolding finalise
  finalise-Adds (success v) h = finish_completed-Adds w k job_id token p h _ v
  finalise-Adds (failure e reason) h = settle-Adds e reason (as_delayed e) h
