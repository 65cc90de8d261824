-- ===== src/Keys/Counts.antt =====
-- internal/keys/keys.go and worker.go's queueKeys: the numbers of KEYS.
use mkq.Prelude.{Bytes, ◌≡◌, refl, length}
use mkq.Redis.Scripts.{
  arity, move_to_active, move_to_finished, retry_job, move_stalled_jobs_to_wait, move_to_delayed,
  update_job_scheduler,
}
use mkq.Keys.{
  Builder, Target, move_to_active_keys, move_to_finished_keys, retry_job_keys, move_stalled_keys,
  move_to_delayed_keys,
}
use mkq.Schedule.Reschedule.{reschedule_keys}

-- moveToActive, moveToFinished, retryJob, moveStalledJobsToWait, moveToDelayed and updateJobScheduler are
-- given as many KEYS as their names promise.
keys_counts :
    (b : Builder) (job_id : Bytes) (t : Target)
    → (length (move_to_active_keys b) ≡ arity move_to_active)
      × (length (move_to_finished_keys b job_id t) ≡ arity move_to_finished)
      × (length (retry_job_keys b job_id) ≡ arity retry_job)
      × (length (move_stalled_keys b) ≡ arity move_stalled_jobs_to_wait)
      × (length (move_to_delayed_keys b job_id) ≡ arity move_to_delayed)
      × (length (reschedule_keys b) ≡ arity update_job_scheduler)
unfolding move_to_active_keys move_to_finished_keys retry_job_keys move_stalled_keys
    move_to_delayed_keys reschedule_keys
keys_counts b job_id t = (refl, refl, refl, refl, refl, refl)
