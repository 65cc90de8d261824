-- ===== src/Events/Decode/RoundTrip.antt =====
-- events.go: the events that BullMQ's scripts write are read back.
use mkq.Prelude.{
  false, List, [], ◌∷◌, Option, none, some, Bytes, codes, eq_bytes, StringMap, get, ℤ, pos, negsuc,
  ◌≤ℤ◌, max_int64, ◌≡◌, refl,
}
use mkq.Decimal.{show_int}
use mkq.Decimal.RoundTrip.{parse_int64-show_int}
use mkq.Redis.{Value, str}
use mkq.Job.{raw_json}
use mkq.Events.Decode.{
  Event, added, waiting, active, completed, failed, delayed, stalled, drained, retries_exhausted,
  removed, progress, raw, id_of, fields_of, event_of, decode_stream_message,
}

abbrev json_text : Option Bytes → Bytes
json_text none = []
json_text (some s) = s

-- What a script puts into the stream for an event: the name, then the fields.
abbrev pub entry_of : Event → StringMap
entry_of (added i j n) =
    (codes "event", codes "added") ∷ (codes "jobId", j) ∷ (codes "name", n) ∷ []
entry_of (waiting i j p) =
    (codes "event", codes "waiting") ∷ (codes "jobId", j) ∷ (codes "prev", p) ∷ []
entry_of (active i j p) =
    (codes "event", codes "active") ∷ (codes "jobId", j) ∷ (codes "prev", p) ∷ []
entry_of (completed i j v p) =
    (codes "event", codes "completed")
    ∷ (codes "jobId", j)
    ∷ (codes "returnvalue", json_text v)
    ∷ (codes "prev", p)
    ∷ []
entry_of (failed i j r p) =
    (codes "event", codes "failed")
    ∷ (codes "jobId", j)
    ∷ (codes "failedReason", r)
    ∷ (codes "prev", p)
    ∷ []
entry_of (delayed i j t) =
    (codes "event", codes "delayed") ∷ (codes "jobId", j) ∷ (codes "delay", show_int t) ∷ []
entry_of (stalled i j) = (codes "event", codes "stalled") ∷ (codes "jobId", j) ∷ []
entry_of (drained i) = (codes "event", codes "drained") ∷ []
entry_of (retries_exhausted i j n) =
    (codes "event", codes "retries-exhausted")
    ∷ (codes "jobId", j)
    ∷ (codes "attemptsMade", show_int n)
    ∷ []
entry_of (removed i j p) =
    (codes "event", codes "removed") ∷ (codes "jobId", j) ∷ (codes "prev", p) ∷ []
entry_of (progress i j d) =
    (codes "event", codes "progress") ∷ (codes "jobId", j) ∷ (codes "data", json_text d) ∷ []
entry_of (raw i t m) = m

abbrev IsInt64 : ℤ → Type 0
IsInt64 n = (negsuc max_int64 ≤ℤ n) × (n ≤ℤ pos max_int64)

abbrev IsJson : Option Bytes → Type 0
IsJson v = raw_json (json_text v) ≡ v

abbrev known : List Bytes
known =
    codes "added"
    ∷ codes "waiting"
    ∷ codes "active"
    ∷ codes "completed"
    ∷ codes "failed"
    ∷ codes "delayed"
    ∷ codes "stalled"
    ∷ codes "drained"
    ∷ codes "retries-exhausted"
    ∷ codes "removed"
    ∷ codes "progress"
    ∷ []

abbrev AllDiffer : Bytes → List Bytes → Type 0
AllDiffer t [] = Unit
AllDiffer t (n ∷ ns) = (eq_bytes t n ≡ false) × AllDiffer t ns

-- An event that the stream can carry: its numbers are int64, a JSON value is not the empty text, and an
-- event without a type of its own has its fields, with a name that is none of the eleven.
abbrev pub IsSent : Event → Type 0
IsSent (completed i j v p) = IsJson v
IsSent (delayed i j t) = IsInt64 t
IsSent (retries_exhausted i j n) = IsInt64 n
IsSent (progress i j d) = IsJson d
IsSent (raw i t m) = (get m (codes "event") ≡ t) × AllDiffer t known
IsSent _ = Unit

abbrev pub sent_body : StringMap → List (Bytes × Value)
sent_body [] = []
sent_body ((k, v) ∷ m) = (k, str v) ∷ sent_body m

module _ (sprint : Value → Bytes) where
  fields_of-sent_body : (m : StringMap) → fields_of sprint (sent_body m) ≡ m
  unfolding fields_of
  fields_of-sent_body [] = refl
  fields_of-sent_body ((k, v) ∷ m) = rw (fields_of-sent_body m) refl

  read_back :
      (e : Event)
      → IsSent e
      → event_of (id_of e) (entry_of e) (get (entry_of e) (codes "event")) ≡ e
  read_back (added i j n) h = refl
  read_back (waiting i j p) h = refl
  read_back (active i j p) h = refl
  read_back (completed i j v p) h = rw (h) refl
  read_back (failed i j r p) h = refl
  read_back (delayed i j t) h = rw (parse_int64-show_int t h.0 h.1) refl
  read_back (stalled i j) h = refl
  read_back (drained i) h = refl
  read_back (retries_exhausted i j n) h = rw (parse_int64-show_int n h.0 h.1) refl
  read_back (removed i j p) h = refl
  read_back (progress i j d) h = rw (h) refl
  read_back (raw i t m) (e, (h1, (h2, (h3, (h4, (h5, (h6, (h7, (h8, (h9, (h10, (h11, u)))))))))))) =
      rw (e, h1, h2, h3, h4, h5, h6, h7, h8, h9, h10, h11) refl

  -- Every event that the stream can carry, the unknown ones included, is decoded to itself with the id
  -- of its entry.
  pub decode_stream_message-entry_of :
      (e : Event)
      → IsSent e
      → decode_stream_message sprint (record { id = id_of e; body = sent_body (entry_of e) }) ≡ e
  unfolding decode_stream_message
  decode_stream_message-entry_of e h = rw (fields_of-sent_body (entry_of e)) (read_back e h)
