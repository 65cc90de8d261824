-- ===== src/Tests/Numbers.antt =====
-- The metrics of a queue, one field of which is not set, and the mutations of a job that is gone.
use mkq.Prelude.{[], ◌∷◌, some, none, codes, ◌≡◌, ◌↔◌, refl, arith, pos, negsuc}
use mkq.Failure.{sentinel, job_not_found, job_detached}
use mkq.Redis.{int, World, ok, err}
use mkq.Inspector.Counts.{bucket_failed}
use mkq.Metrics.{metrics_call, get_metrics}
use mkq.Metrics.RoundTrip.{metrics_value, get_metrics-reads}
use mkq.Job.Mutations.{
  progress_call, data_call, log_call, job_update_progress, job_update_data, job_log,
}
use mkq.Job.Mutations.Answers.{Accepted, Negative, mutations-Answer}
use mkq.Tests.Setup.{open_world, worker, job_id}

abbrev counting : World
counting = record open_world {
  redis =
      λ h c. ok (metrics_value (some (pos 12)) none (some (pos 0)) (pos 3 ∷ negsuc 0 ∷ []) (pos 2));
}

get_metrics-reads_example : get_metrics counting worker.keys bucket_failed (pos 0) (negsuc 0) [] ≡ (
  ok (record {
    meta = record { count = pos 12; prev_ts = pos 0; prev_count = pos 0 };
    points = pos 3 ∷ negsuc 0 ∷ [];
    count = pos 2;
  }),
  metrics_call counting worker.keys bucket_failed (pos 0) (negsuc 0) ∷ [],
)
get_metrics-reads_example =
    get_metrics-reads counting worker.keys [] bucket_failed (pos 0) (negsuc 0) (some (pos 12)) none
      (some (pos 0)) (pos 3 ∷ negsuc 0 ∷ []) (pos 2) refl (omega arith) tt (omega arith)
      (omega arith) refl

abbrev gone : World
gone = record open_world { redis = λ h c. ok (int (negsuc 0)) }

mutations-Answer_example :
    let progress = job_update_progress gone (some worker.keys) job_id (ok (codes "7")) [] in
    let data' = job_update_data gone (some worker.keys) job_id (ok (codes "7")) [] in
    let log = job_log gone (some worker.keys) job_id (codes "line") [] in
    let told = gone.redis [] (progress_call gone worker.keys job_id (codes "7")) in
    let stored = gone.redis [] (data_call gone worker.keys job_id (codes "7")) in
    let added = gone.redis [] (log_call gone worker.keys job_id (codes "line")) in
    ((progress.0 ≡ ok tt) ↔ Accepted told)
    × ((progress.0 ≡ err (sentinel job_not_found)) ↔ (told ≡ ok (int (negsuc 0))))
    × ((data'.0 ≡ ok tt) ↔ Accepted stored)
    × ((data'.0 ≡ err (sentinel job_not_found)) ↔ (stored ≡ ok (int (negsuc 0))))
    × ((log.0 ≡ ok tt) ↔ Accepted added)
    × ((log.0 ≡ err (sentinel job_not_found)) ↔ Negative added)
    × (progress.1 ≡ progress_call gone worker.keys job_id (codes "7") ∷ [])
    × (data'.1 ≡ data_call gone worker.keys job_id (codes "7") ∷ [])
    × (log.1 ≡ log_call gone worker.keys job_id (codes "line") ∷ [])
    × (job_update_progress gone none job_id (ok (codes "7")) [] ≡ (err (sentinel job_detached), []))
    × (job_update_data gone none job_id (ok (codes "7")) [] ≡ (err (sentinel job_detached), []))
    × (job_log gone none job_id (codes "line") [] ≡ (err (sentinel job_detached), []))
mutations-Answer_example =
    mutations-Answer gone worker.keys [] job_id (codes "7") (codes "line") refl
