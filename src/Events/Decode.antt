-- ===== src/Events/Decode.antt =====
-- events.go: the events, and `decodeStreamMessage`.
pub mod RoundTrip
use mkq.Prelude.{
  List, [], ◌∷◌, Option, none, some, Bytes, codes, eq_bytes, StringMap, get, ℤ, if◌then◌else◌,
}
use mkq.Decimal.{parse_int64}
use mkq.Redis.{Value, str}
use mkq.Job.{raw_json}

pub data Event : Type 0 where
  added : Bytes → Bytes → Bytes → Event
  waiting : Bytes → Bytes → Bytes → Event
  active : Bytes → Bytes → Bytes → Event
  completed : Bytes → Bytes → Option Bytes → Bytes → Event
  failed : Bytes → Bytes → Bytes → Bytes → Event
  delayed : Bytes → Bytes → ℤ → Event
  stalled : Bytes → Bytes → Event
  drained : Bytes → Event
  retries_exhausted : Bytes → Bytes → ℤ → Event
  removed : Bytes → Bytes → Bytes → Event
  progress : Bytes → Bytes → Option Bytes → Event
  raw : Bytes → Bytes → StringMap → Event

-- The id of the stream's entry.
abbrev pub id_of : Event → Bytes
id_of (added i j n) = i
id_of (waiting i j p) = i
id_of (active i j p) = i
id_of (completed i j v p) = i
id_of (failed i j r p) = i
id_of (delayed i j t) = i
id_of (stalled i j) = i
id_of (drained i) = i
id_of (retries_exhausted i j n) = i
id_of (removed i j p) = i
id_of (progress i j d) = i
id_of (raw i t f) = i

-- An entry of the stream as go-redis gives it.
pub record Message : Type 0 where
  pub id : Bytes
  pub body : List (Bytes × Value)

-- `sprint` is fmt's %v of a value that is no text.
module _ (sprint : Value → Bytes) where
  abbrev field_text : Value → Bytes
  field_text (str s) = s
  field_text v = sprint v

  unfoldable pub fields_of : List (Bytes × Value) → StringMap
  fields_of [] = []
  fields_of ((k, v) ∷ r) = (k, field_text v) ∷ fields_of r

abbrev pub event_of : Bytes → StringMap → Bytes → Event
event_of i m t =
    let job = get m (codes "jobId") in
    let prev = get m (codes "prev") in
    if eq_bytes t (codes "added")
    then added i job (get m (codes "name"))
    else if eq_bytes t (codes "waiting")
    then waiting i job prev
    else if eq_bytes t (codes "active")
    then active i job prev
    else if eq_bytes t (codes "completed")
    then completed i job (raw_json (get m (codes "returnvalue"))) prev
    else if eq_bytes t (codes "failed")
    then failed i job (get m (codes "failedReason")) prev
    else if eq_bytes t (codes "delayed")
    then delayed i job (parse_int64 (get m (codes "delay"))).0
    else if eq_bytes t (codes "stalled")
    then stalled i job
    else if eq_bytes t (codes "drained")
    then drained i
    else if eq_bytes t (codes "retries-exhausted")
    then retries_exhausted i job (parse_int64 (get m (codes "attemptsMade"))).0
    else if eq_bytes t (codes "removed")
    then removed i job prev
    else if eq_bytes t (codes "progress")
    then progress i job (raw_json (get m (codes "data")))
    else raw i t m

unfoldable pub decode_stream_message : (Value → Bytes) → Message → Event
unfolding fields_of
decode_stream_message sprint msg =
    let m = fields_of sprint msg.body in event_of msg.id m (get m (codes "event"))
