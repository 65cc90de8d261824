-- ===== src/Observability/Runs.antt =====
-- worker.go and promadapter.go: what one run of a job does to the gauge of the jobs in flight and to the
-- counter of the processed jobs.
use mkq.Prelude.{
  ℕ, ◌+◌, List, [], ◌∷◌, ◌++◌, Option, Bytes, codes, get, pos, negsuc, ap, ◌≡◌, refl, ◌∙◌, arith,
}
use mkq.Redis.{World, History, Result, ok, err}
use mkq.Worker.Finish.{Worker, Prefetched}
use mkq.Worker.Finalise.Defs.{Status, completed, failed, retrying, delayed, error, Finalised}
use mkq.Observability.{Attrs, Emission, Collector, jobs_processed, jobs_in_flight, prom_all}
use mkq.Observability.Emitted.{
  in_flight, by_status, of_finalised, finalised, of_failed, stalled_failed, emits_with,
  run_job_emits,
}
use mkq.Observability.Readings.{ups, downs, ups_nil, downs_nil}
use mkq.Observability.Shares.{
  JobRun, word, queue_labels, job_labels, matches, of_result, of_moved, settled_with, settled,
  emits, process_sums, gauge-status, counter-processed, gauge-start, gauge-end, counter-ends,
  plus_up, plus_down,
}

module _ (w : World) (k : Worker) (elapsed : History → ℕ) where
  -- What one run does to the gauge and to a series of the counter, between its first and last emission.
  module _ (r : JobRun) where
    abbrev body : Bytes → List Emission
    body defa = emits_with w k elapsed r.token r.job_id r.job_map defa r.begun

    abbrev name_of : Bytes
    name_of = get r.job_map (codes "name")

    gauge-finalised :
        (f : Result Finalised)
        → (ups jobs_in_flight (queue_labels w k elapsed) (of_finalised w k elapsed name_of f) ≡ 0)
          × (downs jobs_in_flight (queue_labels w k elapsed) (of_finalised w k elapsed name_of f)
              ≡ 0)
    unfolding prom_all
    gauge-finalised (ok f) = gauge-status w k elapsed name_of f.status
    gauge-finalised (err e) = (refl, refl)

    counter-finalised :
        (name status : Bytes) (f : Result Finalised)
        → (ups jobs_processed
              (job_labels w k elapsed name status)
              (of_finalised w k elapsed name_of f)
            ≡ matches w k elapsed name status name_of (of_result w k elapsed f))
          × (downs jobs_processed
                (job_labels w k elapsed name status)
                (of_finalised w k elapsed name_of f)
              ≡ 0)
    counter-finalised name status (err e) = (
      ups_nil jobs_processed (job_labels w k elapsed name status),
      downs_nil jobs_processed (job_labels w k elapsed name status),
    )
    counter-finalised name status (ok f) = counter-status f.status
      where
        counter-status :
            (s : Status)
            → (ups jobs_processed
                  (job_labels w k elapsed name status)
                  (by_status w k elapsed name_of s)
                ≡ matches w k elapsed name status name_of (word s))
              × (downs jobs_processed
                    (job_labels w k elapsed name status)
                    (by_status w k elapsed name_of s)
                  ≡ 0)
        counter-status completed =
            counter-processed w k elapsed name status name_of (codes "completed")
        counter-status failed = counter-processed w k elapsed name status name_of (codes "failed")
        counter-status retrying = (
          ups_nil jobs_processed (job_labels w k elapsed name status),
          downs_nil jobs_processed (job_labels w k elapsed name status),
        )
        counter-status delayed = (
          ups_nil jobs_processed (job_labels w k elapsed name status),
          downs_nil jobs_processed (job_labels w k elapsed name status),
        )
        counter-status error = (
          ups_nil jobs_processed (job_labels w k elapsed name status),
          downs_nil jobs_processed (job_labels w k elapsed name status),
        )

    gauge-body :
        (defa : Bytes)
        → (ups jobs_in_flight (queue_labels w k elapsed) (body defa) ≡ 0)
          × (downs jobs_in_flight (queue_labels w k elapsed) (body defa) ≡ 0)
    gauge-body [] =
        let (up, down) =
          process_sums w k elapsed jobs_in_flight (queue_labels w k elapsed) r.token r.job_id
            r.job_map r.begun in
        let (none_up, none_down) =
          gauge-finalised (finalised w k elapsed r.token r.job_id r.job_map r.begun) in
        (up ∙ none_up, down ∙ none_down)
    gauge-body (c ∷ s) =
        moved (stalled_failed w k elapsed r.token r.job_id r.job_map (c ∷ s) r.begun)
      where
        moved :
            (p : Result (Option Prefetched))
            → (ups jobs_in_flight (queue_labels w k elapsed) (of_failed w k elapsed name_of p) ≡ 0)
              × (downs jobs_in_flight (queue_labels w k elapsed) (of_failed w k elapsed name_of p)
                  ≡ 0)
        moved (ok p) = gauge-status w k elapsed name_of failed
        moved (err e) = (
          ups_nil jobs_in_flight (queue_labels w k elapsed),
          downs_nil jobs_in_flight (queue_labels w k elapsed),
        )

    counter-body :
        (name status defa : Bytes)
        → (ups jobs_processed (job_labels w k elapsed name status) (body defa)
            ≡ matches w k elapsed name status name_of (settled_with w k elapsed r defa))
          × (downs jobs_processed (job_labels w k elapsed name status) (body defa) ≡ 0)
    counter-body name status [] =
        let (up, down) =
          process_sums w k elapsed jobs_processed (job_labels w k elapsed name status) r.token
            r.job_id r.job_map r.begun in
        let (same, none_down) =
          counter-finalised name status
            (finalised w k elapsed r.token r.job_id r.job_map r.begun) in
        (up ∙ same, down ∙ none_down)
    counter-body name status (c ∷ s) =
        moved (stalled_failed w k elapsed r.token r.job_id r.job_map (c ∷ s) r.begun)
      where
        moved :
            (p : Result (Option Prefetched))
            → (ups jobs_processed
                  (job_labels w k elapsed name status)
                  (of_failed w k elapsed name_of p)
                ≡ matches w k elapsed name status name_of (of_moved w k elapsed p))
              × (downs jobs_processed
                    (job_labels w k elapsed name status)
                    (of_failed w k elapsed name_of p)
                  ≡ 0)
        moved (ok p) = counter-processed w k elapsed name status name_of (codes "failed")
        moved (err e) = (
          ups_nil jobs_processed (job_labels w k elapsed name status),
          downs_nil jobs_processed (job_labels w k elapsed name status),
        )

    split :
        (c : Collector) (ls : Attrs)
        → let start = in_flight w k elapsed (pos 1) ∷ [] in
          let end' = in_flight w k elapsed (negsuc 0) ∷ [] in
          let middle = body (get r.job_map (codes "defa")) in
          (ups c ls (emits w k elapsed r) ≡ ups c ls start + (ups c ls middle + ups c ls end'))
          × (downs c ls (emits w k elapsed r)
              ≡ downs c ls start + (downs c ls middle + downs c ls end'))
    unfolding run_job_emits
    split c ls =
        let start = in_flight w k elapsed (pos 1) ∷ [] in
        let end' = in_flight w k elapsed (negsuc 0) ∷ [] in
        let middle = body (get r.job_map (codes "defa")) in
        (
          plus_up w k elapsed c ls start (middle ++ end')
              ∙ ap (λ n. ups c ls start + n) (plus_up w k elapsed c ls middle end'),
          plus_down w k elapsed c ls start (middle ++ end')
              ∙ ap (λ n. downs c ls start + n) (plus_down w k elapsed c ls middle end'),
        )

    pub gauge-run :
        (ups jobs_in_flight (queue_labels w k elapsed) (emits w k elapsed r) ≡ 1)
        × (downs jobs_in_flight (queue_labels w k elapsed) (emits w k elapsed r) ≡ 1)
    gauge-run =
        let (up, down) = split jobs_in_flight (queue_labels w k elapsed) in
        let (none_up, none_down) = gauge-body (get r.job_map (codes "defa")) in
        let (start_up, start_down) = (gauge-start w k elapsed) in
        let (end_up, end_down) = (gauge-end w k elapsed) in
        (
          omega (arith, up, none_up, start_up, end_up),
          omega (arith, down, none_down, start_down, end_down),
        )

    pub counter-run :
        (name status : Bytes)
        → (ups jobs_processed (job_labels w k elapsed name status) (emits w k elapsed r)
            ≡ matches w k elapsed name status
                (get r.job_map (codes "name"))
                (settled w k elapsed r))
          × (downs jobs_processed (job_labels w k elapsed name status) (emits w k elapsed r) ≡ 0)
    counter-run name status =
        let (up, down) = split jobs_processed (job_labels w k elapsed name status) in
        let (same, none_down) = counter-body name status (get r.job_map (codes "defa")) in
        let (start_up, start_down) = counter-ends w k elapsed name status (pos 1) in
        let (end_up, end_down) = counter-ends w k elapsed name status (negsuc 0) in
        (
          omega (arith, up, same, start_up, end_up),
          omega (arith, down, none_down, start_down, end_down),
        )
