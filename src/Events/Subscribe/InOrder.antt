-- ===== src/Events/Subscribe/InOrder.antt =====
-- events.go: which entries of the stream reach the handler of `Subscribe`.
use mkq.Prelude.{
  ℕ, zero, suc, ◌+◌, ◌-◌, ◌≤◌, ◌<◌, true, false, List, [], ◌∷◌, ◌++◌, map, append_assoc, none, ◌==◌,
  ◌≡◌, refl, sym, ap, ◌∙◌, arith, if◌then◌else◌,
}
use mkq.Failure.{redis_nil, is_redis_nil}
use mkq.Redis.{Result, ok, err}
use mkq.Events.Decode.{Event, Message, decode_stream_message}
use mkq.Events.Subscribe.{
  Feed, Progress, Subscribed, running, from_now, hand_out, hand_out_all, read_next, turn, turns,
  subscribe,
}

-- The stream's entries are numbered; `count` of them from number `a` on.
abbrev pub segment : (ℕ → Message) → ℕ → ℕ → List Message
segment entry a zero = []
segment entry a (suc count) = entry a ∷ segment entry (suc a) count

-- What XREAD answers when the entries from number `a` to before `b` are behind the id.
abbrev pub answer : (ℕ → Message) → ℕ → ℕ → Result (List (List Message))
answer entry a b = if a == b then err redis_nil else ok (segment entry a (b - a) ∷ [])

-- The n-th XREAD starts when the stream has `before n` entries and comes back when it has `after n`. With
-- $ it sees the entries that come in meanwhile, with an entry's id all those behind it, as long as the
-- oldest entry that the stream still has, number `oldest n`, is not further behind: the scripts trim the
-- stream, but not past what has been read. The handler returns no error and nobody ends the subscription.
module _ (f : Feed) (entry : ℕ → Message) (before after oldest : ℕ → ℕ)
    (grows : (n : ℕ) → (before n ≤ after n) × (after n ≤ before (suc n)))
    (fresh : (n : ℕ) → f.xread n from_now ≡ answer entry (before n) (after n))
    (behind : (n a : ℕ)
      → a < before n
      → oldest n ≤ suc a
      → f.xread n (entry a).id ≡ answer entry (suc a) (after n))
    (kept : (n : ℕ) → oldest (suc n) ≤ after n) (open_ctx : (n : ℕ) → f.ctx_error n ≡ none)
    (unclosed : (n : ℕ) → f.closed n ≡ false)
    (content : (es : List Event) (e : Event) → f.handler es e ≡ none) where
  abbrev pub events_of : List Message → List Event
  events_of msgs = map (decode_stream_message f.sprint) msgs

  -- Behind the messages of one reply.
  abbrev last_of : List Message → Progress → Progress
  last_of [] s = s
  last_of (msg ∷ msgs) s = last_of msgs (record s {
    last_id = msg.id;
    handed = s.handed ++ (decode_stream_message f.sprint msg ∷ []);
  })

  hand_out_lem :
      (msgs : List Message) (go : Progress → Subscribed) (s : Progress)
      → hand_out f msgs go s ≡ go (last_of msgs s)
  unfolding hand_out
  hand_out_lem [] go s = refl
  hand_out_lem (msg ∷ msgs) go s = rw (content s.handed (decode_stream_message f.sprint msg)) (
      hand_out_lem msgs go (record s {
        last_id = msg.id;
        handed = s.handed ++ (decode_stream_message f.sprint msg ∷ []);
      }))

  last_of-segment :
      (a count : ℕ) (s : Progress)
      → last_of (segment entry a (suc count)) s ≡ record s {
        last_id = (entry (a + count)).id;
        handed = s.handed ++ events_of (segment entry a (suc count));
      }
  last_of-segment a zero s = let same : a + 0 ≡ a = omega arith in rw (same) refl
  last_of-segment a (suc count) s =
      let ev = decode_stream_message f.sprint (entry a) in
      let place : suc a + count ≡ a + suc count = omega arith in
      rw
        (
          last_of-segment (suc a) count
              (record s { last_id = (entry a).id; handed = s.handed ++ (ev ∷ []) }),
          place,
          append_assoc s.handed (ev ∷ []) (events_of (segment entry (suc a) (suc count))),
        )
        refl

  -- A turn with no error and nobody waiting.
  turn_lem : (s : Progress) → turn f s ≡ read_next f s
  unfolding turn
  turn_lem s = rw (open_ctx s.reads, unclosed s.reads) refl

  hand_out_all_lem :
      (msgs : List Message) (s : Progress) → hand_out_all f (msgs ∷ []) s ≡ running (last_of msgs s)
  unfolding hand_out_all
  hand_out_all_lem msgs s = hand_out_lem msgs (λ t. running t) s

  read_none :
      (s : Progress) (a : ℕ)
      → f.xread s.reads s.last_id ≡ answer entry a a
      → turn f s ≡ running (record s { reads = suc s.reads })
  unfolding is_redis_nil
  read_none s a e = let same : (a == a) ≡ true = ground arith in rw (turn_lem s, e, same) refl

  read_some :
      (s : Progress) (a d : ℕ)
      → f.xread s.reads s.last_id ≡ answer entry a (a + suc d)
      → turn f s
        ≡ running (record {
          reads = suc s.reads;
          last_id = (entry (a + d)).id;
          handed = s.handed ++ events_of (segment entry a (suc d));
        })
  read_some s a d e =
      let other : (a == a + suc d) ≡ false = ground arith in
      let size : a + suc d - a ≡ suc d = omega arith in
      rw
        (
          turn_lem s,
          e,
          other,
          size,
          hand_out_all_lem (segment entry a (suc d)) (record s { reads = suc s.reads }),
          last_of-segment a d (record s { reads = suc s.reads }),
        )
        refl

  segment-append :
      (a x y : ℕ) → segment entry a x ++ segment entry (a + x) y ≡ segment entry a (x + y)
  segment-append a zero y =
      let l : a + 0 ≡ a = omega arith in let r : 0 + y ≡ y = omega arith in rw (l, r) refl
  segment-append a (suc x) y =
      let l : a + suc x ≡ suc a + x = omega arith in
      let r : suc x + y ≡ suc (x + y) = omega arith in
      rw (l, r) (ap (λ t. entry a ∷ t) (segment-append (suc a) x y))

  events_of-append : (xs ys : List Message) → events_of (xs ++ ys) ≡ events_of xs ++ events_of ys
  events_of-append [] ys = refl
  events_of-append (x ∷ xs) ys =
      ap (λ t. decode_stream_message f.sprint x ∷ t) (events_of-append xs ys)

  -- Behind `n` reads, the handler has had `suc c` entries from number `a` on.
  abbrev pub handed_out : ℕ → ℕ → ℕ → Progress
  handed_out n a c = record {
    reads = n;
    last_id = (entry (a + c)).id;
    handed = events_of (segment entry a (suc c));
  }

  abbrev pub idle : ℕ → Progress
  idle n = record { reads = n; last_id = from_now; handed = [] }

  turn-idle : (n : ℕ) → before n ≡ after n → turn f (idle n) ≡ running (idle (suc n))
  turn-idle n e = read_none (idle n) (after n) (fresh n ∙ ap (λ x. answer entry x (after n)) e)

  turn-first :
      (n c : ℕ)
      → after n ≡ before n + suc c
      → turn f (idle n) ≡ running (handed_out (suc n) (before n) c)
  turn-first n c e =
      read_some (idle n) (before n) c (fresh n ∙ ap (λ x. answer entry (before n) x) e)

  seen :
      (n a c x : ℕ)
      → a + suc c ≤ before n
      → oldest n ≤ a + suc c
      → after n ≡ x
      → f.xread n (entry (a + c)).id ≡ answer entry (a + suc c) x
  seen n a c x le there e =
      let place : suc (a + c) ≡ a + suc c = omega arith in
      behind n (a + c) (omega (arith, le)) (omega (arith, there))
      ∙ ap (λ z. answer entry z (after n)) place
      ∙ ap (λ z. answer entry (a + suc c) z) e

  events-joined :
      (a c d : ℕ)
      → events_of (segment entry a (suc c)) ++ events_of (segment entry (a + suc c) (suc d))
        ≡ events_of (segment entry a (suc (c + suc d)))
  events-joined a c d =
      let size : suc c + suc d ≡ suc (c + suc d) = omega arith in
      sym (events_of-append (segment entry a (suc c)) (segment entry (a + suc c) (suc d)))
      ∙ ap events_of (segment-append a (suc c) (suc d))
      ∙ ap (λ x. events_of (segment entry a x)) size

  -- One more read: nothing new, or `suc d` entries.
  turn-handed_out :
      (n a c d : ℕ)
      → a + suc c ≤ before n
      → oldest n ≤ a + suc c
      → after n ≡ a + suc c + d
      → turn f (handed_out n a c) ≡ running (handed_out (suc n) a (c + d))
  turn-handed_out n a c zero le there e =
      let none_new : after n ≡ a + suc c = omega (arith, e) in
      let same : c + 0 ≡ c = omega arith in
      rw (same)
        (read_none (handed_out n a c) (a + suc c) (seen n a c (a + suc c) le there none_new))
  turn-handed_out n a c (suc d) le there e =
      let place : a + suc c + d ≡ a + (c + suc d) = omega arith in
      read_some (handed_out n a c) (a + suc c) d (seen n a c (a + suc c + suc d) le there e)
      ∙ ap
          (λ z.
            running (record { reads = suc n; last_id = (entry (a + suc c + d)).id; handed = z }))
          (events-joined a c d)
      ∙ ap
          (λ z. running (record {
            reads = suc n;
            last_id = (entry z).id;
            handed = events_of (segment entry a (suc (c + suc d)));
          }))
          place

  turns_step : (n : ℕ) (s t : Progress) → turn f s ≡ running t → turns f (suc n) s ≡ turns f n t
  unfolding turns
  turns_step n s t e = rw (e) refl

  turns_none : (s : Progress) → turns f 0 s ≡ running s
  unfolding turns
  turns_none s = refl

  skip :
      (j i r : ℕ)
      → ((k : ℕ) → k < i + j → before k ≡ after k)
      → turns f (j + r) (idle i) ≡ turns f r (idle (i + j))
  skip zero i r empty =
      let l : 0 + r ≡ r = omega arith in let same : i + 0 ≡ i = omega arith in rw (l, same) refl
  skip (suc j) i r empty =
      let l : suc j + r ≡ suc (j + r) = omega arith in
      let place : i + suc j ≡ suc i + j = omega arith in
      rw
        (l, place, turns_step (j + r) (idle i) (idle (suc i)) (turn-idle i (empty i (omega arith))))
        (skip j (suc i) r (λ k h. empty k (omega (arith, h))))

  follow :
      (k n a c : ℕ)
      → after n ≡ a + suc c
      → (d : ℕ) × (after (n + k) ≡ a + suc d)
        × (turns f k (handed_out (suc n) a c) ≡ running (handed_out (suc (n + k)) a d))
  follow zero n a c e =
      let same : n + 0 ≡ n = omega arith in
      (c, rw (same) e, rw (same) (turns_none (handed_out (suc n) a c)))
  follow (suc k) n a c e =
      let d = after (suc n) - after n in
      let new : after (suc n) ≡ a + suc c + d = omega (arith, e, (grows n).1, (grows (suc n)).0) in
      let rest = follow k (suc n) a (c + d) (omega (arith, new)) in
      let place : n + suc k ≡ suc n + k = omega arith in
      (
        rest.0,
        rw (place) rest.1,
        rw
            (
              place,
              turns_step k (handed_out (suc n) a c) (handed_out (suc (suc n)) a (c + d)) (
                  turn-handed_out (suc n) a c d (omega (arith, e, (grows n).1))
                    (omega (arith, e, kept n)) new),
            )
            rest.2,
      )

  -- If no read fails other than by a timeout, the handler returns no error, nobody closes the subscription
  -- or ends its context, and the stream is not trimmed past what has been read: when the first `m` reads
  -- find nothing and the next one does, then after `k` further reads the handler has had every entry from
  -- the ones of that read to the last one there is, each once and in order.
  pub subscribe-handed_out :
      (m k : ℕ)
      → ((i : ℕ) → i < m → before i ≡ after i)
      → before m < after m
      → (c : ℕ) × (after (m + k) ≡ before m + suc c)
        × (subscribe f true (m + suc k) ≡ running (handed_out (suc (m + k)) (before m) c))
  unfolding subscribe
  subscribe-handed_out m k empty some_new =
      let c = after m - before m - 1 in
      let new : after m ≡ before m + suc c = omega (arith, some_new) in
      let place : 0 + m ≡ m = omega arith in
      let from : turns f (m + suc k) (idle 0) ≡ turns f (suc k) (idle m) =
        skip m 0 (suc k) (λ i h. empty i (omega (arith, h)))
        ∙ ap (λ x. turns f (suc k) (idle x)) place in
      let rest = follow k m (before m) c new in
      (
        rest.0,
        rest.1,
        from
            ∙ turns_step k (idle m) (handed_out (suc m) (before m) c) (turn-first m c new)
            ∙ rest.2,
      )
