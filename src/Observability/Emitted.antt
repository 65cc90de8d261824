-- ===== src/Observability/Emitted.antt =====
-- worker.go `runJob` and `processJob`: the metrics that one job emits. `elapsed` is how long the handler
-- took.
use mkq.Prelude.{
  ℕ, ◌&&◌, List, [], ◌∷◌, ◌++◌, Bytes, codes, StringMap, get, ℤ, pos, negsuc, ◌-ℤ◌, floor_div,
  ltb_ℤ, if◌then◌else◌, Option,
}
use mkq.Decimal.{parse_int64}
use mkq.JobOpts.{parse_job_opts}
use mkq.Redis.{World, History, Result, ok, err}
use mkq.Worker.Failures.{build_failure_history}
use mkq.Worker.Finish.{Worker, Prefetched, finish_failed}
use mkq.Worker.Heartbeat.{heartbeat}
use mkq.Worker.Finalise.Defs.{Status, completed, failed, Finalised, run_handler, finalise}
use mkq.Observability.{
  Emission, counter_add, histogram_observe, gauge_add, attr_queue, attr_job_name,
  attr_process_status, metric_jobs_processed_total, metric_handler_duration_seconds,
  metric_dispatch_wait_seconds, metric_jobs_in_flight,
}

module _ (w : World) (k : Worker) (elapsed : History → ℕ) where
  abbrev pub in_flight : ℤ → Emission
  in_flight delta = gauge_add metric_jobs_in_flight delta ((attr_queue, k.keys.queue) ∷ [])

  abbrev pub processed : Bytes → Bytes → Emission
  processed name status =
      counter_add metric_jobs_processed_total (pos 1)
        ((attr_queue, k.keys.queue) ∷ (attr_job_name, name) ∷ (attr_process_status, status) ∷ [])

  abbrev pub waited : ℕ → List Emission
  waited seconds =
      if w.floats.le (w.floats.of_int64 (pos 0)) seconds
      then histogram_observe metric_dispatch_wait_seconds seconds ((attr_queue, k.keys.queue) ∷ [])
        ∷ []
      else []

  -- The time since the job was added, if its timestamp is a positive number.
  unfoldable pub dispatch_wait_emits : StringMap → History → List Emission
  unfolding parse_int64
  dispatch_wait_emits job_map h =
      let (ts, fine) = parse_int64 (get job_map (codes "timestamp")) in
      if fine && ltb_ℤ (pos 0) ts
      then waited (
          w.floats.div (w.floats.of_int64 (floor_div (w.now h) 1_000_000 -ℤ ts))
            (w.floats.of_int64 (pos 1000)))
      else []

  abbrev pub by_status : Bytes → Status → List Emission
  by_status name completed = processed name (codes "completed") ∷ []
  by_status name failed = processed name (codes "failed") ∷ []
  by_status name _ = []

  -- `finalise` has no error of its own in the model.
  abbrev pub of_finalised : Bytes → Result Finalised → List Emission
  of_finalised name (ok f) = by_status name f.status
  of_finalised name (err e) = []

  abbrev pub finalised : Bytes → Bytes → StringMap → History → Result Finalised
  finalised token job_id job_map h =
      let h' = (heartbeat w k token job_id (w.beside h job_id) h).1 in
      (finalise w k job_id token job_map (run_handler w (w.handle h' job_id job_map)) h').0

  unfoldable pub process_job_emits : Bytes → Bytes → StringMap → History → List Emission
  unfolding dispatch_wait_emits heartbeat
  process_job_emits token job_id job_map h =
      dispatch_wait_emits job_map h
      ++ (histogram_observe metric_handler_duration_seconds (elapsed h)
            ((attr_queue, k.keys.queue) ∷ (attr_job_name, get job_map (codes "name")) ∷ [])
          ∷ of_finalised (get job_map (codes "name")) (finalised token job_id job_map h))

  abbrev pub of_failed : Bytes → Result (Option Prefetched) → List Emission
  of_failed name (ok p) = processed name (codes "failed") ∷ []
  of_failed name (err e) = []

  abbrev pub stalled_failed :
      Bytes → Bytes → StringMap → Bytes → History → Result (Option Prefetched)
  stalled_failed token job_id job_map defa h =
      (finish_failed w k job_id token
        (parse_job_opts w.floats w.parse_json (get job_map (codes "opts"))) defa
        (build_failure_history w job_map defa) h).0

  abbrev pub emits_with : Bytes → Bytes → StringMap → Bytes → History → List Emission
  emits_with token job_id job_map [] h = process_job_emits token job_id job_map h
  emits_with token job_id job_map (c ∷ s) h =
      of_failed (get job_map (codes "name")) (stalled_failed token job_id job_map (c ∷ s) h)

  unfoldable pub run_job_emits : Bytes → Bytes → StringMap → History → List Emission
  unfolding process_job_emits
  run_job_emits token job_id job_map h =
      in_flight (pos 1)
      ∷ (emits_with token job_id job_map (get job_map (codes "defa")) h
          ++ (in_flight (negsuc 0) ∷ []))
