-- ===== src/Events/Subscribe/Ends.antt =====
-- events.go: the loop of `Subscribe` ends.
use mkq.Prelude.{
  ℕ, zero, suc, ◌+◌, ◌≤◌, Bool, true, false, List, [], ◌∷◌, ◌++◌, Option, none, some, Bool-cases,
  ◌≡◌, refl, sym, inl, inr, ◌⊎◌, arith, ◌||◌,
}
use mkq.Failure.{Failure, is_redis_nil, is_canceled, is_deadline_exceeded}
use mkq.Redis.{Result, ok, err}
use mkq.Events.Decode.{Message, decode_stream_message}
use mkq.Events.Subscribe.{
  Feed, Progress, Subscribed, returned, running, subscribed, hand_out, hand_out_all, after_handler,
  after_read, select, turn, turns, then_turn, subscribe,
}

-- The subscription has come back, after `n` reads at most.
abbrev pub Ends : ℕ → Subscribed → Type 0
Ends n (returned r s) = s.reads ≤ n
Ends n (running s) = ⊥

-- Closed, or cancelled, once `k` reads are made.
abbrev pub Stopped : Feed → ℕ → Type 0
Stopped f k = (f.closed k ≡ true) ⊎ ((e : Failure) × (f.ctx_error k ≡ some e))

-- After a turn: one read more, or back.
abbrev After : ℕ → Subscribed → Type 0
After k (returned r s) = s.reads ≤ k
After k (running s) = s.reads ≡ k

module _ (f : Feed) where
  handled :
      (k : ℕ) (o : Option Failure) (go : Progress → Subscribed)
      → ((t : Progress) → t.reads ≡ k → After k (go t))
      → (t : Progress) → t.reads ≡ k
      → After k (after_handler f o go t)
  handled k none go h t e = h t e
  handled k (some x) go h t e = omega (arith, e)

  hand_out_lem :
      (k : ℕ) (msgs : List Message) (go : Progress → Subscribed)
      → ((t : Progress) → t.reads ≡ k → After k (go t))
      → (s : Progress) → s.reads ≡ k
      → After k (hand_out f msgs go s)
  unfolding hand_out
  hand_out_lem k [] go h s e = h s e
  hand_out_lem k (msg ∷ msgs) go h s e =
      let ev = decode_stream_message f.sprint msg in
      handled k (f.handler s.handed ev) (hand_out f msgs go) (λ t e'. hand_out_lem k msgs go h t e')
        (record s { last_id = msg.id; handed = s.handed ++ (ev ∷ []) }) e

  hand_out_all_lem :
      (k : ℕ) (streams : List (List Message)) (s : Progress)
      → s.reads ≡ k
      → After k (hand_out_all f streams s)
  unfolding hand_out_all
  hand_out_all_lem k [] s e = e
  hand_out_all_lem k (msgs ∷ streams) s e =
      hand_out_lem k msgs (hand_out_all f streams) (hand_out_all_lem k streams) s e

  after_read_lem :
      (k : ℕ) (r : Result (List (List Message))) (s : Progress)
      → s.reads ≡ k
      → After k (after_read f r s)
  after_read_lem k (ok streams) s e = hand_out_all_lem k streams s e
  after_read_lem k (err x) s e = elim (Bool-cases (is_redis_nil x)) [
    | inl a ↦ rw (a) e
    | inr a ↦ elim (Bool-cases (is_canceled x || is_deadline_exceeded x)) [
      | inl c ↦ rw (a, c) (omega (arith, e))
      | inr c ↦ rw (a, c) (omega (arith, e))
    ]
  ]

  select_lem :
      (o : Option Failure) (c first : Bool) (s : Progress)
      → After (suc s.reads) (select f o c first s)
  select_lem (some x) false first s = omega arith
  select_lem (some x) true true s = omega arith
  select_lem (some x) true false s = omega arith
  select_lem none true first s = omega arith
  select_lem none false first s =
      after_read_lem (suc s.reads) (f.xread s.reads s.last_id) (record s { reads = suc s.reads })
        refl

  turn_lem : (s : Progress) → After (suc s.reads) (turn f s)
  unfolding turn
  turn_lem s = select_lem (f.ctx_error s.reads) (f.closed s.reads) (f.ctx_first s.reads) s

  stop_select :
      (o : Option Failure) (c first : Bool) (s : Progress)
      → (c ≡ true) ⊎ ((e : Failure) × (o ≡ some e))
      → Ends s.reads (select f o c first s)
  stop_select (some x) false first s h = omega arith
  stop_select (some x) true true s h = omega arith
  stop_select (some x) true false s h = omega arith
  stop_select none true first s h = omega arith
  stop_select none false first s (inl h) = cc
  stop_select none false first s (inr (x, e)) = cc

  stop_turn : (s : Progress) → Stopped f s.reads → Ends s.reads (turn f s)
  unfolding turn
  stop_turn s h = stop_select (f.ctx_error s.reads) (f.closed s.reads) (f.ctx_first s.reads) s h

  turns_step : (n : ℕ) (s : Progress) → turns f (suc n) s ≡ then_turn f (turn f s) (turns f n)
  unfolding turns
  turns_step n s = refl

  Ends-now :
      (n : ℕ) (r : Subscribed) (go : Progress → Subscribed) → Ends n r → Ends n (then_turn f r go)
  Ends-now n (returned r s) go h = h
  Ends-now n (running s) go h = elim h [ ]

  Ends-After :
      (k n : ℕ) (r : Subscribed) (go : Progress → Subscribed)
      → k ≤ n
      → After k r
      → ((t : Progress) → t.reads ≡ k → Ends n (go t))
      → Ends n (then_turn f r go)
  Ends-After k n (returned r s) go le h g = omega (arith, h, le)
  Ends-After k n (running s) go le h g = g s h

  -- The turns from `s` on, when the subscription is stopped `m` reads later.
  Ends-later : (m n : ℕ) (s : Progress) → s.reads + m ≡ n → Stopped f n → Ends n (turns f (suc m) s)
  Ends-later zero n s e h =
      let now : s.reads ≡ n = omega (arith, e) in
      rw (turns_step zero s)
        (Ends-now n (turn f s) (turns f zero) (rw (sym now) (stop_turn s (rw (now) h))))
  Ends-later (suc m) n s e h = rw (turns_step (suc m) s) (
      Ends-After (suc s.reads) n (turn f s) (turns f (suc m)) (omega (arith, e)) (turn_lem s)
        (λ t e'. Ends-later m n t (omega (arith, e, e')) h))

-- A subscription that is closed or cancelled by its n-th read comes back: it makes n reads at most.
pub subscribe-Ends :
    (f : Feed) (has_handler : Bool) (n : ℕ) → Stopped f n → Ends n (subscribe f has_handler (suc n))
unfolding subscribe
subscribe-Ends f true n h = Ends-later f n n subscribed (omega arith) h
subscribe-Ends f false n h = omega arith
