-- ===== src/Tests/Operators.antt =====
-- What an operator does to the test queue.
use mkq.Prelude.{[], codes, pos, negsuc, ◌≡◌, ◌↔◌, refl}
use mkq.Keys
use mkq.Redis.{World, int, ok, err}
use mkq.Failure.{
  sentinel, job_active, job_is_scheduler, job_not_in_delayed, job_not_found,
  job_not_in_expected_state,
}
use mkq.Inspector.Admin.{
  remove_job, promote_job, retry_with, remove_call, promote_call, reprocess_call, default_retry,
}
use mkq.Inspector.Admin.Codes.{Answers, operators-Answers}
use mkq.Inspector.Pause.{pause_resume}
use mkq.Inspector.Pause.Rounds.{Ends, pause_resume-Ends}
use mkq.Tests.Setup.{open_world, worker}

-- Every run of the script leaves a job behind.
abbrev crowded : World
crowded = record open_world { redis = λ h c. ok (int (pos 1)) }

pause_resume-Ends_example :
    Ends crowded worker.keys Keys.paused Keys.wait
      (codes "resumed")
      99
      []
      (pause_resume crowded worker.keys Keys.paused Keys.wait (codes "resumed") [])
pause_resume-Ends_example =
    pause_resume-Ends crowded worker.keys Keys.paused Keys.wait (codes "resumed") []

-- A job that is active cannot be removed, and is neither delayed nor failed.
abbrev refusing : World
refusing = record open_world { redis = λ h c. ok (int (pos 0)) }

operators-Answers_example :
    let removing = (remove_job refusing worker.keys (codes "42") []).0 in
    let promoting = (promote_job refusing worker.keys (codes "42") []).0 in
    let retrying = (retry_with refusing worker.keys (codes "42") default_retry []).0 in
    let retry_call =
      reprocess_call refusing worker.keys
        (codes "42")
        default_retry
        Keys.failed
        (codes "failedReason")
        (codes "failed") in
    let removed_with =
      Answers refusing worker.keys [] (remove_call refusing worker.keys (codes "42")) in
    let promoted_with =
      Answers refusing worker.keys [] (promote_call refusing worker.keys (codes "42")) in
    ((removing ≡ ok tt) ↔ removed_with (pos 1))
    × ((removing ≡ err (sentinel job_active)) ↔ removed_with (pos 0))
    × ((removing ≡ err (sentinel job_is_scheduler)) ↔ removed_with (negsuc 7))
    × ((promoting ≡ ok tt) ↔ promoted_with (pos 0))
    × ((promoting ≡ err (sentinel job_not_in_delayed)) ↔ promoted_with (negsuc 2))
    × ((retrying ≡ ok tt) ↔ Answers refusing worker.keys [] retry_call (pos 1))
    × ((retrying ≡ err (sentinel job_not_found))
        ↔ Answers refusing worker.keys [] retry_call (negsuc 0))
    × ((retrying ≡ err (sentinel job_not_in_expected_state))
        ↔ Answers refusing worker.keys [] retry_call (negsuc 2))
operators-Answers_example =
    operators-Answers refusing worker.keys [] (codes "42") default_retry refl refl
