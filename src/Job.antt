-- ===== src/Job.antt =====
-- job.go and worker.go `buildJob`, queue.go `buildJobState`: a job as its HASH has it.
pub mod Mutations
use mkq.Prelude.{
  Bool, true, false, List, [], ◌∷◌, ◌++◌, Option, none, some, Bytes, codes, StringMap, find, get, ℤ,
  pos, ltb_ℤ, if◌then◌else◌,
}
use mkq.Decimal.{parse_int64, parse_int}
use mkq.Failure.{wrap}
use mkq.Redis.{
  Value, str, arr, elements, World, Handled, failed_with, Result, ok, err, checked, wrapped,
}
use mkq.Worker.Failures.{attempt_history_field, decode_json_strings, decode_json_int64s}

-- Times are unix milliseconds; the back-pointer to the queue is left out.
pub record Job (T : Type 0) : Type 0 where
  pub id : Bytes
  pub name : Bytes
  pub payload : T
  pub timestamp : ℤ
  pub attempts_made : ℤ
  pub attempts_started : ℤ
  pub stalled_counter : ℤ
  pub processed_by : Bytes

-- The type of the payload, with its zero value and json.Unmarshal into it.
pub record Payload (T : Type 0) : Type 0 where
  pub blank : T
  pub unmarshal : Bytes → Result T

module _ {T : Type 0} (p : Payload T) where
  abbrev decoded : Option Bytes → Result T
  decoded none = ok p.blank
  decoded (some []) = ok p.blank
  decoded (some (c ∷ s)) = wrapped (codes "unmarshal data") (p.unmarshal (c ∷ s))

  unfoldable pub build_job : Bytes → StringMap → Result (Job T)
  unfolding parse_int64 parse_int
  build_job job_id m = checked (decoded (find m (codes "data"))) (λ d. ok (record {
    id = job_id;
    name = get m (codes "name");
    payload = d;
    timestamp = (parse_int64 (get m (codes "timestamp"))).0;
    attempts_made = parse_int (get m (codes "atm"));
    attempts_started = parse_int (get m (codes "ats"));
    stalled_counter = parse_int (get m (codes "stc"));
    processed_by = get m (codes "pb");
  }))

-- newHandlerShim: the job is rebuilt before the user's handler `h` sees it. The queue that the job points
-- back to is left out.
unfoldable pub handler_shim :
    {T : Type 0} → Payload T → (Job T → Handled) → Bytes → StringMap → Handled
unfolding build_job
handler_shim p h job_id m = elim (build_job p job_id m) [
  | ok job ↦ h job
  | err e ↦ failed_with (wrap (codes "mkq: rebuild job " ++ job_id) e)
]

-- `none` is the zero time, the nil RawMessage, the nil slice.
pub record JobState : Type 0 where
  pub processed_on : Option ℤ
  pub finished_on : Option ℤ
  pub return_value : Option Bytes
  pub failed_reason : Bytes
  pub stacktrace : Option (List Bytes)
  pub progress : Option Bytes
  pub opts : Option Bytes
  pub delay : ℤ
  pub attempts_at : Option (List ℤ)

abbrev positive_time : ℤ × Bool → Option ℤ
positive_time (n, true) = if ltb_ℤ (pos 0) n then some n else none
positive_time (n, false) = none

abbrev pub raw_json : Bytes → Option Bytes
raw_json [] = none
raw_json (c ∷ s) = some (c ∷ s)

abbrev if_parsed : ℤ × Bool → ℤ
if_parsed (n, true) = n
if_parsed (n, false) = pos 0

unfoldable pub build_job_state : World → StringMap → JobState
unfolding parse_int64
build_job_state w m = record {
  processed_on = positive_time (parse_int64 (get m (codes "processedOn")));
  finished_on = positive_time (parse_int64 (get m (codes "finishedOn")));
  return_value = raw_json (get m (codes "returnvalue"));
  failed_reason = get m (codes "failedReason");
  stacktrace = decode_json_strings w (get m (codes "stacktrace"));
  progress = raw_json (get m (codes "progress"));
  opts = raw_json (get m (codes "opts"));
  delay = if_parsed (parse_int64 (get m (codes "delay")));
  attempts_at = decode_json_int64s w (get m attempt_history_field);
}

-- The map that go-redis makes of the reply of HGETALL, a flat array of fields and values.
abbrev pub pairs_of : List Value → StringMap
pairs_of (str k ∷ str v ∷ r) = (k, v) ∷ pairs_of r
pairs_of _ = []

abbrev pub hash_of : Value → StringMap
hash_of (arr vs) = pairs_of (elements vs)
hash_of _ = []
