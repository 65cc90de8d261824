-- ===== src/Queue/Get.antt =====
-- queue.go: `Queue.Get`.
use mkq.Prelude.{Bytes, codes, [], ◌∷◌, ◌++◌, StringMap}
use mkq.Failure.{sentinel, job_not_found}
use mkq.Keys
use mkq.Job.{Job, JobState, Payload, build_job, build_job_state, hash_of}
use mkq.Redis.{World, hgetall, M, Result, ok, err, checked, and_then, with_context, ask}
use mkq.Queue.Add.{Queue}

module _ {T : Type 0} (w : World) (p : Payload T) where
  -- A HASH with no field is a job that does not exist.
  abbrev pub from_hash : Bytes → StringMap → Result (Job T × JobState)
  from_hash job_id [] = err (sentinel job_not_found)
  from_hash job_id (kv ∷ m) =
      checked (build_job p job_id (kv ∷ m)) (λ job. ok (job, build_job_state w (kv ∷ m)))

  unfoldable pub get_job : Queue → Bytes → M (Job T × JobState)
  get_job q job_id =
      and_then
        (with_context (codes "mkq: HGetAll " ++ job_id) (ask w (hgetall (Keys.job q.keys job_id))))
        (λ v. from_hash job_id (hash_of v))
