-- ===== src/Reply/RoundTrip.antt =====
-- What the worker reads back from a HGETALL reply and from the reply of moveToActive.
use mkq.Prelude.{
  ◌*◌, ◌%◌, true, false, List, [], ◌∷◌, Option, none, some, Bytes, is_empty, eq_bytes, length, ◌≡◌,
  refl, arith, StringMap, find, put, ◌==◌, if◌then◌else◌, ap,
}
use mkq.Backoff.{Floats}
use mkq.Redis.{Value, str, arr, values, elements, ok, err}
use mkq.Reply.{got_job, collect_pairs, flat_hash_to_map, odd_length, parse_move_to_active_result}

-- The flat array that HGETALL gives for a HASH: each field, then its value.
abbrev pub flatten : StringMap → List Value
flatten [] = []
flatten ((k, v) ∷ m) = str k ∷ str v ∷ flatten m

-- The map that the loop builds: the fields in the order in which they were stored last.
abbrev pub stored : StringMap → StringMap → StringMap
stored [] acc = acc
stored ((k, v) ∷ m) acc = stored m (put acc k v)

-- The value of a field, the last one that the array has for it.
abbrev pub last_value : StringMap → Bytes → Option Bytes → Option Bytes
last_value [] k old = old
last_value ((j, v) ∷ m) k old = last_value m k (if eq_bytes j k then some v else old)

collect_pairs-flatten : (m acc : StringMap) → collect_pairs (flatten m) acc ≡ ok (stored m acc)
unfolding collect_pairs
collect_pairs-flatten [] acc = refl
collect_pairs-flatten ((k, v) ∷ m) acc = collect_pairs-flatten m (put acc k v)

length-flatten : (m : StringMap) → length (flatten m) ≡ 2 * length m
length-flatten [] = refl
length-flatten ((k, v) ∷ m) = omega (arith, length-flatten m)

find-stored : (m acc : StringMap) (k : Bytes) → find (stored m acc) k ≡ last_value m k (find acc k)
find-stored [] acc k = refl
find-stored ((j, v) ∷ m) acc k = find-stored m (put acc j v) k

flat_hash_to_map-flatten : (m : StringMap) → flat_hash_to_map (flatten m) ≡ ok (stored m [])
unfolding flat_hash_to_map
flat_hash_to_map-flatten m =
    let even : (length (flatten m) % 2 == 0) ≡ true = ground (arith, length-flatten m) in
    rw even (collect_pairs-flatten m [])

pub elements-values : (vs : List Value) → elements (values vs) ≡ vs
elements-values [] = refl
elements-values (v ∷ vs) = ap (λ r. v ∷ r) (elements-values vs)

-- A job that moveToActive (or a fetchNext) hands over arrives whole: the worker gets its id, and for
-- every field the value that the HASH has for it.
pub parse_move_to_active_result-job :
    (fl : Floats) (m : StringMap) (job_id : Bytes) (c d : Value)
    → is_empty job_id ≡ false
    → (m' : StringMap) × (parse_move_to_active_result fl
          (arr (values (arr (values (flatten m)) ∷ str job_id ∷ c ∷ d ∷ [])))
        ≡ ok (got_job m' job_id))
      × ((k : Bytes) → find m' k ≡ last_value m k none)
unfolding parse_move_to_active_result
parse_move_to_active_result-job fl m [] c d h = cc
parse_move_to_active_result-job fl m (x ∷ xs) c d h =
    (stored m [], rw (elements-values (flatten m), flat_hash_to_map-flatten m), find-stored m [])

-- An array of odd length is refused whatever it holds, before any of it is read.
pub flat_hash_to_map-odd :
    (vs : List Value) → length vs % 2 ≡ 1 → flat_hash_to_map vs ≡ err odd_length
unfolding flat_hash_to_map
flat_hash_to_map-odd vs h = rw h
