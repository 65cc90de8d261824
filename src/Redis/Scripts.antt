-- ===== src/Redis/Scripts.antt =====
-- internal/lua/loader.go: the scripts that the program calls. A script's file name ends in the number
-- of KEYS that it takes.
use mkq.Prelude.{ℕ, Bytes, codes}

pub data ScriptName : Type 0 where
  add_standard_job add_delayed_job add_prioritized_job move_to_active move_to_finished : ScriptName
  extend_lock release_lock retry_job move_to_delayed move_stalled_jobs_to_wait : ScriptName
  add_job_scheduler update_job_scheduler update_progress update_data add_log : ScriptName
  get_counts get_ranges get_metrics remove_job drain promote reprocess_job pause : ScriptName

-- The number at the end of the script's name, such as 9 of "addStandardJob-9".
abbrev pub arity : ScriptName → ℕ
arity add_standard_job = 9
arity add_delayed_job = 6
arity add_prioritized_job = 9
arity move_to_active = 11
arity move_to_finished = 14
arity extend_lock = 2
arity release_lock = 1
arity retry_job = 11
arity move_to_delayed = 11
arity move_stalled_jobs_to_wait = 9
arity add_job_scheduler = 11
arity update_job_scheduler = 12
arity update_progress = 3
arity update_data = 1
arity add_log = 2
arity get_counts = 1
arity get_ranges = 1
arity get_metrics = 2
arity remove_job = 2
arity drain = 5
arity promote = 9
arity reprocess_job = 9
arity pause = 7

-- The file name without its extension.
abbrev pub script_name : ScriptName → Bytes
script_name add_standard_job = codes "addStandardJob-9"
script_name add_delayed_job = codes "addDelayedJob-6"
script_name add_prioritized_job = codes "addPrioritizedJob-9"
script_name move_to_active = codes "moveToActive-11"
script_name move_to_finished = codes "moveToFinished-14"
script_name extend_lock = codes "extendLock-2"
script_name release_lock = codes "releaseLock-1"
script_name retry_job = codes "retryJob-11"
script_name move_to_delayed = codes "moveToDelayed-11"
script_name move_stalled_jobs_to_wait = codes "moveStalledJobsToWait-9"
script_name add_job_scheduler = codes "addJobScheduler-11"
script_name update_job_scheduler = codes "updateJobScheduler-12"
script_name update_progress = codes "updateProgress-3"
script_name update_data = codes "updateData-1"
script_name add_log = codes "addLog-2"
script_name get_counts = codes "getCounts-1"
script_name get_ranges = codes "getRanges-1"
script_name get_metrics = codes "getMetrics-2"
script_name remove_job = codes "removeJob-2"
script_name drain = codes "drain-5"
script_name promote = codes "promote-9"
script_name reprocess_job = codes "reprocessJob-9"
script_name pause = codes "pause-7"
