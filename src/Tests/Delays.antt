-- ===== src/Tests/Delays.antt =====
-- The delays and waits of the test worker.
use mkq.Prelude.{true, false, [], none, some, codes, ◌≡◌, refl, pos, max_int64}
use mkq.Failure.{plain}
use mkq.Backoff.{BackoffContext, exponential_backoff, compute_backoff_delay, RetryDelayFunc}
use mkq.Backoff.Bounds.{compute_backoff_delay-exponential}
use mkq.Worker.Config.{WorkerConfig, second}
use mkq.Worker.Retry.{compute_retry_delay}
use mkq.Worker.Retry.Attempts.{compute_retry_delay-override}
use mkq.Tests.Setup.{plain_floats, worker}

-- A second, doubled forty times, no longer fits an int64.
compute_backoff_delay-exponential_example :
    compute_backoff_delay (some (exponential_backoff (pos second))) (pos 41) ≡ pos max_int64
unfolding exponential_backoff
compute_backoff_delay-exponential_example =
    compute_backoff_delay-exponential (exponential_backoff (pos second)) second 40 refl refl

abbrev second_try : BackoffContext
second_try = record {
  job_id = codes "42";
  name = codes "send";
  attempts_made = pos 2;
  err = plain (codes "boom");
  backoff_type = [];
}

abbrev five : RetryDelayFunc
five = λ bc. some (pos 5, true)

abbrev declines : RetryDelayFunc
declines = λ bc. some (pos 5, false)

abbrev asking : RetryDelayFunc → WorkerConfig
asking fn = record (worker.cfg) { retry_delay_override = some fn }

compute_retry_delay-override_example :
    compute_retry_delay plain_floats (asking five) none second_try 0 ≡ pos 5
compute_retry_delay-override_example =
    compute_retry_delay-override plain_floats (asking five) none second_try 0 refl five refl
