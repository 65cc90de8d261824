-- ===== src/Reply.antt =====
-- worker.go: what the worker makes of a script's polymorphic reply.
pub mod RoundTrip
use mkq.Prelude.{
  ◌%◌, Bool, true, false, List, [], ◌∷◌, Bytes, codes, ◌==◌, length, StringMap, put, ℤ, pos,
  if◌then◌else◌,
}
use mkq.Failure.{Failure, plain}
use mkq.Backoff.{Floats}
use mkq.Redis.{Value, str, int, float, arr, elements, Result, ok, err}

abbrev pub odd_length : Failure
odd_length = plain (codes "HGETALL flat array has odd length")

abbrev pub not_a_string : Failure
not_a_string = plain (codes "HGETALL element not a string")

-- The loop of `flatHashToMap` over the pairs that are left.
unfoldable pub collect_pairs : List Value → StringMap → Result StringMap
collect_pairs (str k ∷ str v ∷ r) m = collect_pairs r (put m k v)
collect_pairs [] m = ok m
collect_pairs _ m = err not_a_string

unfoldable pub flat_hash_to_map : List Value → Result StringMap
unfolding collect_pairs
flat_hash_to_map vs = if length vs % 2 == 0 then collect_pairs vs [] else err odd_length

-- `toInt64`; an `int` and an `int32` are integers of the model already.
unfoldable pub to_int64 : Floats → Value → ℤ × Bool
to_int64 fl (int n) = (n, true)
to_int64 fl (float x) = (fl.to_int64 x, true)
to_int64 fl _ = (pos 0, false)

-- What `parseMoveToActiveResult` returns when it returns no error.
pub data Acquired : Type 0 where
  got_job : StringMap → Bytes → Acquired
  no_job : ℤ → ℤ → Acquired

abbrev with_id : Value → Result StringMap → Result Acquired
with_id (str (c ∷ s)) (ok m) = ok (got_job m (c ∷ s))
with_id (str (c ∷ s)) (err e) = err e
with_id _ r = ok (no_job (pos 0) (pos 0))

module _ (fl : Floats) where
  -- A reply with fewer than four parts is taken for an empty queue.
  abbrev parse_parts : List Value → Result Acquired
  parse_parts (arr job ∷ job_id ∷ c ∷ d ∷ r) = with_id job_id (flat_hash_to_map (elements job))
  parse_parts (a ∷ b ∷ expire ∷ next ∷ r) = ok (no_job (to_int64 fl expire).0 (to_int64 fl next).0)
  parse_parts _ = ok (no_job (pos 0) (pos 0))

  unfoldable pub parse_move_to_active_result : Value → Result Acquired
  unfolding to_int64 flat_hash_to_map
  parse_move_to_active_result (arr vs) = parse_parts (elements vs)
  parse_move_to_active_result _ = ok (no_job (pos 0) (pos 0))
