-- ===== src/Worker/Run.antt =====
-- worker.go: taking a job and running it. Logging, metrics and tracing are left out.
use mkq.Prelude.{true, false, [], ◌∷◌, Option, none, some, Bytes, codes, StringMap, get, ℤ, pos}
use mkq.Failure.{Failure, is_canceled, wrap}
use mkq.JobOpts.{parse_job_opts}
use mkq.Keys
use mkq.Proto.{MoveToActiveOpts, encode_move_to_active_opts}
use mkq.Redis.{
  Value, text, number, eval, World, M, Effect, Result, ok, err, ◌>>=◌, pure, fail, attempt,
  with_context, ask, encode, clock,
}
use mkq.Redis.Scripts.{move_to_active}
use mkq.Reply.{Acquired, got_job, no_job, parse_move_to_active_result}
use mkq.Schedule.Reschedule.{reschedule_next}
use mkq.Worker.Failures.{build_failure_history}
use mkq.Worker.Finish.{Worker, Prefetched, limiter_ms, lock_ms, finish_failed, release}
use mkq.Worker.Heartbeat.{heartbeat}
use mkq.Worker.Finalise.Defs.{Finalised, run_handler, finalise}

-- What one attempt to take a job came to.
pub data Tried : Type 0 where
  processed : Option Prefetched → Tried
  nothing : ℤ → ℤ → Tried

module _ (w : World) (k : Worker) where
  -- A terminal call that failed must not strand the lock.
  abbrev pub release_after : Bytes → Bytes → Option Failure → Effect
  release_after job_id token none h = h
  release_after job_id token (some e) h = release w k job_id token h

  -- A job of a schedule queues the next iteration, whatever became of it.
  abbrev pub reschedule : Bytes → Bytes → Effect
  reschedule [] job_id h = h
  reschedule (c ∷ s) job_id h = reschedule_next w k.keys (c ∷ s) job_id h

  abbrev pub wind_up : Bytes → Bytes → Bytes → Finalised → M (Option Prefetched)
  wind_up job_id token rjk f h =
      (ok f.prefetched, reschedule rjk job_id (release_after job_id token f.error h))

  -- The heartbeat runs beside the handler, and has ended when the outcome is written.
  unfoldable pub process_job : Bytes → Bytes → StringMap → M (Option Prefetched)
  unfolding heartbeat
  process_job token job_id job_map h =
      let h' = (heartbeat w k token job_id (w.beside h job_id) h).1 in
      (finalise w k job_id token job_map (run_handler w (w.handle h' job_id job_map))
          >>= wind_up job_id token (get job_map (codes "rjk")))
        h'

  abbrev pub after_stalled : Bytes → Bytes → Result (Option Prefetched) → M (Option Prefetched)
  after_stalled job_id token (ok p) h = (ok p, h)
  after_stalled job_id token (err e) h = (ok none, release w k job_id token h)

  -- A job that stalled too often carries its failure in `defa`, and goes straight to failed.
  abbrev pub run_with : Bytes → Bytes → StringMap → Bytes → M (Option Prefetched)
  run_with token job_id job_map [] h = process_job token job_id job_map h
  run_with token job_id job_map (c ∷ s) h =
      let (r, h') =
        finish_failed w k job_id token
          (parse_job_opts w.floats w.parse_json (get job_map (codes "opts"))) (c ∷ s)
          (build_failure_history w job_map (c ∷ s)) h in
      after_stalled job_id token r h'

  unfoldable pub run_job : Bytes → Bytes → StringMap → M (Option Prefetched)
  unfolding process_job
  run_job token job_id job_map = run_with token job_id job_map (get job_map (codes "defa"))

  unfoldable pub active_opts : Bytes → MoveToActiveOpts
  active_opts token = record {
    token = token;
    lock_duration = lock_ms w k;
    name = k.cfg.worker_name;
    limiter = limiter_ms k.cfg.limiter;
  }

  -- A cancelled call is no error, and finds nothing.
  abbrev uncancelled : Result Value → Result (Option Value)
  uncancelled (ok v) = ok (some v)
  uncancelled (err e) = elim (is_canceled e) [
    | true ↦ ok none
    | false ↦ err (wrap (codes "moveToActive") e)
  ]

  abbrev run_acquired : Bytes → Acquired → M Tried
  run_acquired token (got_job m job_id) = do p ← run_job token job_id m; pure (processed p)
  run_acquired token (no_job expire next) = pure (nothing expire next)

  abbrev run_reply : Bytes → Option Value → M Tried
  run_reply token none h = pure (nothing (pos 0) (pos 0)) h
  run_reply token (some v) h = elim (parse_move_to_active_result w.floats v) [
    | ok a ↦ run_acquired token a h
    | err e ↦ fail (wrap (codes "parse moveToActive") e) h
  ]

  unfoldable pub try_once : M Tried
  unfolding run_job active_opts
  try_once h =
      let token = w.uuid h in
      (do
        now ← clock w
        opts ←
            with_context (codes "encode moveToActive opts")
              (encode w (encode_move_to_active_opts (active_opts token)))
        r ← attempt (
            ask w (
              eval move_to_active (Keys.move_to_active_keys k.keys)
                (text (Keys.base k.keys) ∷ number now ∷ text opts ∷ [])))
        v ← (λ h'. (uncancelled r, h'))
        run_reply token v)
        h
