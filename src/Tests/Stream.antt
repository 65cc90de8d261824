-- ===== src/Tests/Stream.antt =====
-- The events stream.
use mkq.Prelude.{
  ◌-◌, ℕ, zero, suc, ◌+◌, ◌≤◌, ◌<◌, true, false, [], ◌∷◌, none, Bytes, codes, pos, ◌≡◌, refl, arith,
  inl, if◌then◌else◌, ◌==◌, eq_bytes,
}
use mkq.Redis.{Value, str}
use mkq.Events.Decode.{Event, delayed, Message, decode_stream_message, id_of}
use mkq.Events.Decode.RoundTrip.{entry_of, sent_body, decode_stream_message-entry_of}
use mkq.Events.Subscribe.{Feed, running, subscribe, from_now}
use mkq.Events.Subscribe.InOrder.{answer, handed_out, subscribe-handed_out}
use mkq.Events.Subscribe.Ends.{Ends, subscribe-Ends}

abbrev print : Value → Bytes
print v = codes "?"

abbrev later : Event
later = delayed (codes "1-0") (codes "42") (pos 1_700_000_000_000)

decode_stream_message-entry_of_example :
    decode_stream_message print (record { id = id_of later; body = sent_body (entry_of later) })
    ≡ later
decode_stream_message-entry_of_example = decode_stream_message-entry_of print later (omega arith)

-- Entry number n has the id n in unary, so that a read can tell which entries are behind it.
abbrev unary : ℕ → Bytes
unary zero = []
unary (suc n) = 49 ∷ unary n

abbrev entry : ℕ → Message
entry n = record { id = unary n; body = (codes "event", str (codes "drained")) ∷ [] }

abbrev count_ones : Bytes → ℕ
count_ones [] = 0
count_ones (c ∷ s) = suc (count_ones s)

-- One entry comes in during every read but the first, when the stream has two.
abbrev before_read : ℕ → ℕ
before_read zero = 2
before_read (suc n) = suc (suc n)

abbrev after_read : ℕ → ℕ
after_read n = suc (suc n)

abbrev place : Bytes → ℕ → ℕ
place s n = if eq_bytes s from_now then before_read n else suc (count_ones s)

abbrev feed : Feed
feed = record {
  ctx_error = λ n. none;
  closed = λ n. false;
  ctx_first = λ n. true;
  xread = λ n last. answer entry (place last n) (after_read n);
  sprint = print;
  handler = λ es e. none;
}

count_ones-unary : (n : ℕ) → count_ones (unary n) ≡ n
count_ones-unary zero = refl
count_ones-unary (suc n) = omega (arith, count_ones-unary n)

place_lem : (a n : ℕ) → place (unary a) n ≡ suc a
place_lem zero n = refl
place_lem (suc a) n = omega (arith, count_ones-unary a)

grows : (n : ℕ) → (before_read n ≤ after_read n) × (after_read n ≤ before_read (suc n))
grows zero = omega arith
grows (suc n) = omega arith

-- The stream keeps three entries.
abbrev oldest : ℕ → ℕ
oldest n = after_read n - 3

oldest_kept : (n : ℕ) → oldest (suc n) ≤ after_read n
oldest_kept n = omega arith

quiet_first : (i : ℕ) → i < 1 → before_read i ≡ after_read i
quiet_first zero h = refl
quiet_first (suc i) h = omega (arith, h)

subscribe-handed_out_example :
    (c : ℕ) × (after_read (1 + 1) ≡ before_read 1 + suc c)
    × (subscribe feed true (1 + suc 1)
        ≡ running (
            handed_out feed entry before_read after_read oldest grows
              (λ n. refl)
              (λ n a h t. rw (place_lem a n) refl)
              oldest_kept
              (λ n. refl)
              (λ n. refl)
              (λ es e. refl)
              (suc (1 + 1))
              (before_read 1)
              c))
subscribe-handed_out_example =
    subscribe-handed_out feed entry before_read after_read oldest grows (λ n. refl)
      (λ n a h t. rw (place_lem a n) refl) oldest_kept (λ n. refl) (λ n. refl) (λ es e. refl) 1 1
      quiet_first (omega arith)

abbrev closed_later : Feed
closed_later = record feed { closed = λ n. n == 3 }

subscribe-Ends_example : Ends 3 (subscribe closed_later true 4)
subscribe-Ends_example = subscribe-Ends closed_later true 3 (inl refl)
