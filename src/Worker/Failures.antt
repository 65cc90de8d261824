-- ===== src/Worker/Failures.antt =====
-- worker.go: the fields of a job that grow by one entry with each failed attempt.
pub mod Grow
use mkq.Prelude.{
  Bool, true, false, List, [], ◌∷◌, ◌++◌, Option, none, some, Bytes, codes, is_empty, StringMap,
  get, ℤ, pos, ltb_ℤ, if◌then◌else◌,
}
use mkq.Decimal.{parse_int64}
use mkq.Json.{Json, array, Elements, no_element, element}
use mkq.JobOpts.{into_int, into_string, ◌>>=◌}
use mkq.Redis.{World}

pub record FailureHistory : Type 0 where
  pub stacktrace : Bytes
  pub attempts_at : Bytes

abbrev pub attempt_history_field : Bytes
attempt_history_field = codes "mkqAttemptsAt"

-- Decoding into a []string: a null element is an empty text, any other kind is an error.
abbrev pub strings_of : Elements → Option (List Bytes)
strings_of no_element = some []
strings_of (element v vs) = do s ← into_string v []; r ← strings_of vs; some (s ∷ r)

abbrev pub ints_of : Elements → Option (List ℤ)
ints_of no_element = some []
ints_of (element v vs) = do n ← into_int v (pos 0); r ← ints_of vs; some (n ∷ r)

abbrev string_slice : Option Json → Option (List Bytes)
string_slice (some (array vs)) = strings_of vs
string_slice _ = none

abbrev int_slice : Option Json → Option (List ℤ)
int_slice (some (array vs)) = ints_of vs
int_slice _ = none

abbrev pub or_nil : Option (List Bytes) → List Bytes
or_nil none = []
or_nil (some l) = l

abbrev append_to : Option (List ℤ) → ℤ → Option (List ℤ)
append_to none n = some (n ∷ [])
append_to (some l) n = some (l ++ n ∷ [])

module _ (w : World) where
  -- `none` is the nil slice: nothing stored, a null, or a text that does not decode.
  unfoldable pub decode_json_strings : Bytes → Option (List Bytes)
  decode_json_strings raw = if is_empty raw then none else string_slice (w.parse_json raw)

  unfoldable pub decode_json_int64s : Bytes → Option (List ℤ)
  decode_json_int64s raw = if is_empty raw then none else int_slice (w.parse_json raw)

  -- `starts`, with the start of this attempt behind it if it is known.
  abbrev pub with_start : Option (List ℤ) → ℤ × Bool → Option (List ℤ)
  with_start starts (n, true) = if ltb_ℤ (pos 0) n then append_to starts n else starts
  with_start starts (n, false) = starts

  unfoldable pub build_failure_history : StringMap → Bytes → FailureHistory
  unfolding decode_json_strings decode_json_int64s
  build_failure_history job_map reason = record {
    stacktrace =
        w.json_strings
          (or_nil (decode_json_strings (get job_map (codes "stacktrace"))) ++ reason ∷ []);
    attempts_at = w.json_ints (
        with_start (decode_json_int64s (get job_map attempt_history_field))
          (parse_int64 (get job_map (codes "processedOn"))));
  }
