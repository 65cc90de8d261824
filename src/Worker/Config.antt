-- ===== src/Worker/Config.antt =====
-- worker_options.go, and the defaults and corrections that `Process` makes to them.
pub mod Sound
use mkq.Prelude.{
  ℕ, zero, ◌*◌, ◌≡◌, Bool, false, List, [], ◌∷◌, Option, none, some, Bytes, codes, take, ◌++◌, ◌||◌,
  is_empty, ℤ, pos, ◌≤ℤ◌, ◌+ℤ◌, leb_ℤ, ltb_ℤ, wrap64, if◌then◌else◌,
}
use mkq.Decimal.{show_int}
use mkq.Redis.{Result, ok, err}
use mkq.Backoff.{CustomBackoffFunc, BackoffFunc, RetryDelayFunc}

pub record Limiter : Type 0 where
  pub max : ℤ
  pub duration : ℤ

pub record WorkerConfig : Type 0 where
  pub concurrency : ℤ
  pub lock_duration : ℤ
  pub worker_name : Bytes
  pub idle_poll_interval : ℤ
  pub stalled_interval : ℤ
  pub max_stalled_count : ℤ
  pub limiter : Option Limiter
  pub max_data_points : ℤ
  pub backoff_strategy : Option CustomBackoffFunc
  pub backoff_func : Option BackoffFunc
  pub retry_delay_override : Option RetryDelayFunc

abbrev pub second : ℕ
second = 1_000_000_000

abbrev pub millisecond : ℕ
millisecond = 1_000_000

-- One constructor for each option; an option is a closure over its arguments.
pub data WorkerOption : Type 0 where
  with_concurrency : ℤ → WorkerOption
  with_lock_duration : ℤ → WorkerOption
  with_worker_name : Bytes → WorkerOption
  with_idle_poll_interval : ℤ → WorkerOption
  with_stalled_interval : ℤ → WorkerOption
  with_max_stalled_count : ℤ → WorkerOption
  with_rate_limit : ℤ → ℤ → WorkerOption
  with_backoff_strategy : Option CustomBackoffFunc → WorkerOption
  with_backoff_strategy_func : Option BackoffFunc → WorkerOption
  with_job_metrics : ℤ → WorkerOption
  with_retry_delay_override : Option RetryDelayFunc → WorkerOption

unfoldable pub apply_option : WorkerOption → WorkerConfig → WorkerConfig
apply_option (with_concurrency n) c = record c { concurrency = n }
apply_option (with_lock_duration d) c = record c { lock_duration = d }
apply_option (with_worker_name s) c = record c { worker_name = s }
apply_option (with_idle_poll_interval d) c = record c { idle_poll_interval = d }
apply_option (with_stalled_interval d) c = record c { stalled_interval = d }
apply_option (with_max_stalled_count n) c = record c { max_stalled_count = n }
apply_option (with_rate_limit max duration) c =
    if leb_ℤ max (pos 0) || leb_ℤ duration (pos 0)
    then record c { limiter = none }
    else record c { limiter = some (record { max = max; duration = duration }) }
apply_option (with_backoff_strategy fn) c = record c { backoff_strategy = fn }
apply_option (with_backoff_strategy_func fn) c = record c { backoff_func = fn }
apply_option (with_job_metrics n) c = record c {
  max_data_points = if ltb_ℤ n (pos 0) then pos 0 else n;
}
apply_option (with_retry_delay_override fn) c = record c { retry_delay_override = fn }

abbrev pub default_config : WorkerConfig
default_config = record {
  concurrency = pos 1;
  lock_duration = pos (30 * second);
  worker_name = [];
  idle_poll_interval = pos (100 * millisecond);
  stalled_interval = pos (30 * second);
  max_stalled_count = pos 1;
  limiter = none;
  max_data_points = pos 0;
  backoff_strategy = none;
  backoff_func = none;
  retry_delay_override = none;
}

unfoldable pub apply_options : List WorkerOption → WorkerConfig → WorkerConfig
unfolding apply_option
apply_options [] c = c
apply_options (o ∷ os) c = apply_options os (apply_option o c)

abbrev host_name : Result Bytes → Bytes
host_name (ok host) = host
host_name (err e) = codes "unknown"

-- The host's name, the process's number and the first eight characters of a new UUID.
unfoldable pub default_worker_name : Result Bytes → ℤ → Bytes → Bytes
default_worker_name host pid uuid =
    host_name host ++ (b'-' ∷ (show_int pid ++ (b'-' ∷ take 8 uuid)))

-- The corrections behind the loop; `default_name` is what `defaultWorkerName()` returns.
unfoldable pub normalise : Bytes → WorkerConfig → WorkerConfig
normalise default_name c =
    let d = (if ltb_ℤ c.concurrency (pos 1) then record c { concurrency = pos 1 } else c) in
    if is_empty d.worker_name then record d { worker_name = default_name } else d

-- The configuration that a worker of `Process` runs with.
unfoldable pub configure : Bytes → List WorkerOption → WorkerConfig
unfolding apply_options normalise
configure default_name opts = normalise default_name (apply_options opts default_config)

-- How many goroutines `Process` starts: the dispatch loops, and the stalled checker if it is on.
unfoldable pub goroutines : WorkerConfig → ℤ
goroutines c = if ltb_ℤ (pos 0) c.stalled_interval then c.concurrency +ℤ pos 1 else c.concurrency

-- Whether `Process` warns of a small pool; a configured size of 0 stands for ten per processor.
unfoldable pub warns_of_pool : ℤ → ℕ → WorkerConfig → Bool
warns_of_pool (pos zero) procs c = ltb_ℤ (pos (10 * procs)) (wrap64 (c.concurrency +ℤ pos 8))
warns_of_pool configured procs c = ltb_ℤ configured (wrap64 (c.concurrency +ℤ pos 8))

-- What every worker relies on, whatever options it was given.
pub record IsSound (c : WorkerConfig) : Type 0 where
  pub some_slot : pos 1 ≤ℤ c.concurrency
  pub named : is_empty c.worker_name ≡ false
  pub limit_positive : (l : Limiter) → c.limiter ≡ some l → (pos 1 ≤ℤ l.max) × (pos 1 ≤ℤ l.duration)
  pub points_nonneg : pos 0 ≤ℤ c.max_data_points
