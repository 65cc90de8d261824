-- ===== src/Keys.antt =====
-- internal/keys/keys.go: the Redis keys of a queue, and worker.go's snapshot of them with the KEYS that
-- each worker script is given.
pub mod Counts
use mkq.Prelude.{List, [], ◌∷◌, ◌++◌, Bytes, codes, is_empty, if◌then◌else◌}

pub record Builder : Type 0 where
  pub prefix : Bytes
  pub queue : Bytes

abbrev pub default_prefix : Bytes
default_prefix = codes "bull"

unfoldable pub new : Bytes → Bytes → Builder
new prefix queue = record {
  prefix = if is_empty prefix then default_prefix else prefix;
  queue = queue;
}

unfoldable pub base : Builder → Bytes
base b = b.prefix ++ codes ":" ++ b.queue ++ codes ":"

-- The queue-level keys that are the base with a fixed word behind it.
pub data Slot : Type 0 where
  wait active delayed prioritized completed failed paused stalled stalled_check : Slot
  meta id marker priority_counter events limiter repeat : Slot

abbrev pub slot_name : Slot → Bytes
slot_name wait = codes "wait"
slot_name active = codes "active"
slot_name delayed = codes "delayed"
slot_name prioritized = codes "prioritized"
slot_name completed = codes "completed"
slot_name failed = codes "failed"
slot_name paused = codes "paused"
slot_name stalled = codes "stalled"
slot_name stalled_check = codes "stalled-check"
slot_name meta = codes "meta"
slot_name id = codes "id"
slot_name marker = codes "marker"
slot_name priority_counter = codes "pc"
slot_name events = codes "events"
slot_name limiter = codes "limiter"
slot_name repeat = codes "repeat"

unfoldable pub slot : Builder → Slot → Bytes
slot b s = base b ++ slot_name s

unfoldable pub schedule : Builder → Bytes → Bytes
schedule b schedule_id = base b ++ (codes "repeat:" ++ schedule_id)

unfoldable pub dedup : Builder → Bytes → Bytes
dedup b dedup_id = base b ++ (codes "de:" ++ dedup_id)

unfoldable pub metrics : Builder → Bytes → Bytes
metrics b target = base b ++ (codes "metrics:" ++ target)

unfoldable pub job : Builder → Bytes → Bytes
job b job_id = base b ++ job_id

unfoldable pub job_logs : Builder → Bytes → Bytes
job_logs b job_id = job b job_id ++ codes ":logs"

unfoldable pub job_lock : Builder → Bytes → Bytes
job_lock b job_id = job b job_id ++ codes ":lock"

-- The outcome that `moveToFinished` writes.
pub data Target : Type 0 where
  to_completed to_failed : Target

abbrev pub target_name : Target → Bytes
target_name to_completed = codes "completed"
target_name to_failed = codes "failed"

abbrev pub target_slot : Target → Slot
target_slot to_completed = completed
target_slot to_failed = failed

unfoldable pub move_to_active_keys : Builder → List Bytes
move_to_active_keys b =
    slot b wait
    ∷ slot b active
    ∷ slot b prioritized
    ∷ slot b events
    ∷ slot b stalled
    ∷ slot b limiter
    ∷ slot b delayed
    ∷ slot b paused
    ∷ slot b meta
    ∷ slot b priority_counter
    ∷ slot b marker
    ∷ []

unfoldable pub move_to_finished_keys : Builder → Bytes → Target → List Bytes
move_to_finished_keys b job_id target =
    slot b wait
    ∷ slot b active
    ∷ slot b prioritized
    ∷ slot b events
    ∷ slot b stalled
    ∷ slot b limiter
    ∷ slot b delayed
    ∷ slot b paused
    ∷ slot b meta
    ∷ slot b priority_counter
    ∷ slot b (target_slot target)
    ∷ job b job_id
    ∷ metrics b (target_name target)
    ∷ slot b marker
    ∷ []

unfoldable pub retry_job_keys : Builder → Bytes → List Bytes
retry_job_keys b job_id =
    slot b active
    ∷ slot b wait
    ∷ slot b paused
    ∷ job b job_id
    ∷ slot b meta
    ∷ slot b events
    ∷ slot b delayed
    ∷ slot b prioritized
    ∷ slot b priority_counter
    ∷ slot b marker
    ∷ slot b stalled
    ∷ []

unfoldable pub move_stalled_keys : Builder → List Bytes
move_stalled_keys b =
    slot b stalled
    ∷ slot b wait
    ∷ slot b active
    ∷ slot b stalled_check
    ∷ slot b meta
    ∷ slot b paused
    ∷ slot b marker
    ∷ slot b events
    ∷ slot b repeat
    ∷ []

unfoldable pub move_to_delayed_keys : Builder → Bytes → List Bytes
move_to_delayed_keys b job_id =
    slot b marker
    ∷ slot b active
    ∷ slot b prioritized
    ∷ slot b delayed
    ∷ job b job_id
    ∷ slot b events
    ∷ slot b meta
    ∷ slot b stalled
    ∷ slot b wait
    ∷ slot b limiter
    ∷ slot b priority_counter
    ∷ []
