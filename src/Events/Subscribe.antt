-- ===== src/Events/Subscribe.antt =====
-- events.go: `Subscribe`. What is outside, and may change with each call of XREAD, is a parameter.
pub mod InOrder
pub mod Ends
use mkq.Prelude.{
  ℕ, zero, suc, Bool, true, false, ◌||◌, List, [], ◌∷◌, ◌++◌, Option, none, some, Bytes, codes,
  if◌then◌else◌,
}
use mkq.Failure.{Failure, plain, wrap, is_redis_nil, is_canceled, is_deadline_exceeded}
use mkq.Redis.{Value, Result, ok, err}
use mkq.Events.Decode.{Event, Message, decode_stream_message}

-- `ctx_error`, `closed` and `ctx_first` are asked with the number of XREADs so far: ctx.Err(), whether
-- Close was called, and which of the two the select takes when both are ready. `xread` gives the streams of
-- a call with the messages that each has behind an id. `handler` is the caller's; what it does may depend
-- on the events that it has had.
pub record Feed : Type 0 where
  pub ctx_error : ℕ → Option Failure
  pub closed : ℕ → Bool
  pub ctx_first : ℕ → Bool
  pub xread : ℕ → Bytes → Result (List (List Message))
  pub sprint : Value → Bytes
  pub handler : List Event → Event → Option Failure

-- The calls made, the id behind which the next one reads, and the events that the handler got.
pub record Progress : Type 0 where
  pub reads : ℕ
  pub last_id : Bytes
  pub handed : List Event

pub data Subscribed : Type 0 where
  returned : Option Failure → Progress → Subscribed
  running : Progress → Subscribed

abbrev pub from_now : Bytes
from_now = codes "$"

abbrev pub subscribed : Progress
subscribed = record { reads = 0; last_id = from_now; handed = [] }

module _ (f : Feed) where
  -- `handler(ev)`, behind the assignment of lastID.
  abbrev pub after_handler : Option Failure → (Progress → Subscribed) → Progress → Subscribed
  after_handler (some e) go s = returned (some e) s
  after_handler none go s = go s

  unfoldable pub hand_out : List Message → (Progress → Subscribed) → Progress → Subscribed
  hand_out [] go s = go s
  hand_out (msg ∷ msgs) go s =
      let ev = decode_stream_message f.sprint msg in
      after_handler (f.handler s.handed ev) (hand_out msgs go)
        (record s { last_id = msg.id; handed = s.handed ++ (ev ∷ []) })

  unfoldable pub hand_out_all : List (List Message) → Progress → Subscribed
  unfolding hand_out
  hand_out_all [] s = running s
  hand_out_all (msgs ∷ streams) s = hand_out msgs (hand_out_all streams) s

  -- A timeout of XREAD is no error.
  abbrev pub after_read : Result (List (List Message)) → Progress → Subscribed
  after_read (ok streams) s = hand_out_all streams s
  after_read (err e) s =
      if is_redis_nil e
      then running s
      else if is_canceled e || is_deadline_exceeded e
      then returned (f.ctx_error s.reads) s
      else returned (some (wrap (codes "mkq: XREAD events") e)) s

  abbrev pub read_next : Progress → Subscribed
  read_next s = after_read (f.xread s.reads s.last_id) (record s { reads = suc s.reads })

  -- The select: the error of the context, nil for a closed subscription, or the next read.
  abbrev pub select : Option Failure → Bool → Bool → Progress → Subscribed
  select (some e) false first s = returned (some e) s
  select (some e) true first s = if first then returned (some e) s else returned none s
  select none true first s = returned none s
  select none false first s = read_next s

  unfoldable pub turn : Progress → Subscribed
  unfolding hand_out_all is_canceled is_deadline_exceeded is_redis_nil
  turn s = select (f.ctx_error s.reads) (f.closed s.reads) (f.ctx_first s.reads) s

  abbrev pub then_turn : Subscribed → (Progress → Subscribed) → Subscribed
  then_turn (returned r s) go = returned r s
  then_turn (running s) go = go s

  -- The loop for a number of turns.
  unfoldable pub turns : ℕ → Progress → Subscribed
  unfolding turn
  turns zero s = running s
  turns (suc n) s = then_turn (turn s) (turns n)

-- A nil handler is refused.
unfoldable pub subscribe : Feed → Bool → ℕ → Subscribed
unfolding turns
subscribe f has_handler n =
    if has_handler
    then turns f n subscribed
    else returned (some (plain (codes "mkq: QueueEvents.Subscribe requires a non-nil handler")))
        subscribed
