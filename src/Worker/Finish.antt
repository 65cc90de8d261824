-- ===== src/Worker/Finish.antt =====
-- worker.go: the calls that write a job's outcome to Redis.
use mkq.Prelude.{
  Bool, List, [], ◌∷◌, Option, none, some, Bytes, codes, StringMap, get, ℤ, pos, negsuc, quot,
  max_ℤ, if◌then◌else◌, ◌++◌,
}
use mkq.Failure.{coded}
use mkq.Decimal.{parse_int, show_int}
use mkq.JobOpts.{JobOpts, RetentionLimit}
use mkq.Keys
use mkq.Keys.{Builder, Target, to_completed, to_failed, target_name}
use mkq.Proto.{
  MoveToActiveLimiter, KeepJobs, MoveToFinishedOpts, encode_move_to_finished_opts,
  encode_job_fields,
}
use mkq.Redis.{
  Value, int, str, Arg, text, number, Packed, pack_str, eval, hget, World, M, Effect, Result, ok,
  err, ◌>>=◌, pure, attempt, with_context, wrapped, checked, and_then, encoded, ask, clock,
}
use mkq.Redis.Scripts.{move_to_finished, release_lock, retry_job, move_to_delayed}
use mkq.Reply.{Acquired, got_job, no_job, parse_move_to_active_result}
use mkq.Worker.Config.{WorkerConfig, Limiter, millisecond}
use mkq.Worker.Failures.{FailureHistory, attempt_history_field}

-- A running worker: its configuration and its queue's keys.
pub record Worker : Type 0 where
  pub cfg : WorkerConfig
  pub keys : Builder

-- The next job, that moveToFinished has already locked under the token of the one it finished.
pub record Prefetched : Type 0 where
  pub job_map : StringMap
  pub job_id : Bytes
  pub token : Bytes

-- `d.Milliseconds()`.
abbrev pub in_ms : ℤ → ℤ
in_ms d = quot d millisecond

abbrev pub limiter_ms : Option Limiter → Option MoveToActiveLimiter
limiter_ms none = none
limiter_ms (some l) = some (record { max = l.max; duration_ms = in_ms l.duration })

abbrev age_or_zero : Option ℤ → ℤ
age_or_zero none = pos 0
age_or_zero (some a) = a

abbrev pub keep_jobs : Option RetentionLimit → Option KeepJobs
keep_jobs none = none
keep_jobs (some r) = some (record { count = r.count; age = age_or_zero r.age_seconds })

-- A script's reply that is a negative number is an error.
abbrev pub check_code : Bytes → Value → Result (Unit {0})
check_code c (int (negsuc n)) = err (coded c (negsuc n))
check_code c _ = ok tt

module _ (w : World) (k : Worker) where
  abbrev pub lock_ms : ℤ
  lock_ms = in_ms k.cfg.lock_duration

  -- "1" asks the script for the next job; not once the worker is closing.
  unfoldable pub fetch_next_flag : M Bytes
  fetch_next_flag h = (ok (if w.closing h then [] else codes "1"), h)

  unfoldable pub finish_opts : Bytes → ℤ → Option RetentionLimit → MoveToFinishedOpts
  finish_opts token attempts keep = record {
    token = token;
    lock_duration = lock_ms;
    attempts = attempts;
    keep_jobs = keep_jobs keep;
    name = k.cfg.worker_name;
    limiter = limiter_ms k.cfg.limiter;
    max_metrics_size = k.cfg.max_data_points;
  }

  abbrev taken : Bytes → Acquired → Option Prefetched
  taken token (got_job m id) = some (record { job_map = m; job_id = id; token = token })
  taken token (no_job a b) = none

  -- A number is a plain success or an error code; a list may hold the next job.
  unfoldable pub interpret_finished : Bytes → Value → Result (Option Prefetched)
  interpret_finished token (int (pos n)) = ok none
  interpret_finished token (int (negsuc n)) =
      err (coded (codes "moveToFinished returned error code") (negsuc n))
  interpret_finished token v =
      checked (parse_move_to_active_result w.floats v) (λ a. ok (taken token a))

  abbrev pub finish_args : Bytes → ℤ → Bytes → Bytes → Target → Bytes → Bytes → Bytes → List Arg
  finish_args job_id now msg_property msg_value target flag opts fields =
      text job_id
      ∷ number now
      ∷ text msg_property
      ∷ text msg_value
      ∷ text (target_name target)
      ∷ text flag
      ∷ text (Keys.base k.keys)
      ∷ text opts
      ∷ text fields
      ∷ []

  unfoldable pub send_finished :
      Bytes → Bytes → Target → Bytes → Bytes → Bytes → Bytes → M (Option Prefetched)
  unfolding fetch_next_flag interpret_finished
  send_finished job_id token target msg_property msg_value opts fields = do
    now ← clock w
    flag ← fetch_next_flag
    and_then
        (with_context (codes "moveToFinished(" ++ target_name target ++ codes ")") (
          ask w (
            eval move_to_finished (Keys.move_to_finished_keys k.keys job_id target)
              (finish_args job_id now msg_property msg_value target flag opts fields))))
        (interpret_finished token)

  unfoldable pub run_move_to_finished :
      Bytes
      → Bytes
      → ℤ
      → Option RetentionLimit
      → Target
      → Bytes
      → Bytes
      → List Packed
      → M (Option Prefetched)
  unfolding send_finished finish_opts
  run_move_to_finished job_id token attempts keep target msg_property msg_value extra =
      encoded
        (wrapped (codes "encode finish opts")
          (w.pack (encode_move_to_finished_opts show_int (finish_opts token attempts keep))))
        (wrapped (codes "encode job fields") (encode_job_fields w extra))
        (send_finished job_id token target msg_property msg_value)

  unfoldable pub finish_completed : Bytes → Bytes → JobOpts → Bytes → M (Option Prefetched)
  unfolding run_move_to_finished
  finish_completed job_id token o return_value =
      run_move_to_finished job_id token o.attempts o.remove_on_complete to_completed
        (codes "returnvalue") return_value []

  unfoldable pub finish_failed :
      Bytes → Bytes → JobOpts → Bytes → FailureHistory → M (Option Prefetched)
  unfolding run_move_to_finished
  finish_failed job_id token o reason hist =
      run_move_to_finished job_id token o.attempts o.remove_on_fail to_failed (codes "failedReason")
        reason
        (pack_str (codes "stacktrace")
          ∷ pack_str hist.stacktrace
          ∷ pack_str attempt_history_field
          ∷ pack_str hist.attempts_at
          ∷ [])

  abbrev retry_fields : Bytes → FailureHistory → List Packed
  retry_fields reason hist =
      pack_str (codes "failedReason")
      ∷ pack_str reason
      ∷ pack_str (codes "stacktrace")
      ∷ pack_str hist.stacktrace
      ∷ pack_str attempt_history_field
      ∷ pack_str hist.attempts_at
      ∷ []

  unfoldable pub retry_immediate : Bytes → Bytes → Bool → Bytes → FailureHistory → M (Unit {0})
  retry_immediate job_id token lifo reason hist = do
    now ← clock w
    fields ←
        with_context (codes "encode retry job fields")
          (λ h. (encode_job_fields w (retry_fields reason hist), h))
    and_then
        (with_context (codes "retryJob") (
          ask w (
            eval retry_job (Keys.retry_job_keys k.keys job_id) (
              text (Keys.base k.keys)
              ∷ number now
              ∷ text (if lifo then codes "RPUSH" else codes "LPUSH")
              ∷ text job_id
              ∷ text token
              ∷ text fields
              ∷ []))))
        (check_code (codes "retryJob returned error code"))

  -- ARGV of moveToDelayed; `skip` is "1" when the attempt is not to be counted.
  abbrev pub delay_args : ℤ → Bytes → Bytes → ℤ → Bytes → Bytes → List Arg
  delay_args now job_id token ms skip fields =
      text (Keys.base k.keys)
      ∷ number now
      ∷ text job_id
      ∷ text token
      ∷ number ms
      ∷ text skip
      ∷ text fields
      ∷ text []
      ∷ text []
      ∷ []

  unfoldable pub move_to_delayed_keeping_attempts : Bytes → Bytes → ℤ → M (Unit {0})
  move_to_delayed_keeping_attempts job_id token d = do
    now ← clock w
    and_then
        (with_context (codes "moveToDelayed") (
          ask w (
            eval move_to_delayed (Keys.move_to_delayed_keys k.keys job_id)
              (delay_args now job_id token (max_ℤ (in_ms d) (pos 1)) (codes "1") []))))
        (check_code (codes "moveToDelayed returned error code"))

  unfoldable pub retry_delayed : Bytes → Bytes → ℤ → Bytes → FailureHistory → M (Unit {0})
  retry_delayed job_id token d reason hist = do
    now ← clock w
    fields ←
        with_context (codes "encode retry job fields")
          (λ h. (encode_job_fields w (retry_fields reason hist), h))
    and_then
        (with_context (codes "moveToDelayed") (
          ask w (
            eval move_to_delayed (Keys.move_to_delayed_keys k.keys job_id)
              (delay_args now job_id token (max_ℤ (in_ms d) (pos 1)) (codes "0") fields))))
        (check_code (codes "moveToDelayed returned error code"))

  abbrev pub read_atm : Result Value → StringMap → ℤ
  read_atm (ok (str v)) job_map = parse_int v
  read_atm _ job_map = parse_int (get job_map (codes "atm"))

  -- The counter in Redis, or the one that came with the job if it cannot be read.
  unfoldable pub fetch_atm : Bytes → StringMap → M ℤ
  unfolding parse_int
  fetch_atm job_id job_map = do
    v ← attempt (ask w (hget (Keys.job k.keys job_id) (codes "atm")))
    pure (read_atm v job_map)

  -- Best effort: the reply is dropped.
  unfoldable pub release : Bytes → Bytes → Effect
  release job_id token h =
      eval release_lock (Keys.job_lock k.keys job_id ∷ []) (text token ∷ number lock_ms ∷ []) ∷ h

  -- The lock of a prefetched job that the dispatcher drops when it exits.
  unfoldable pub release_prefetched_lock : Option Prefetched → Effect
  unfolding release
  release_prefetched_lock none h = h
  release_prefetched_lock (some p) h = release p.job_id p.token h
