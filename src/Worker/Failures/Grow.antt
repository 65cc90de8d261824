-- ===== src/Worker/Failures/Grow.antt =====
-- worker.go: what `buildFailureHistory` adds to the record of a job's failures.
use mkq.Prelude.{
  false, List, [], ◌∷◌, ◌++◌, some, Bytes, codes, is_empty, get, put, StringMap, ◌≡◌, refl, sym, ap,
  ◌∙◌, All, All-append, append_assoc,
}
use mathlib.Core.List.{append-nil}
use mkq.Json.{string, array, Elements, no_element, element}
use mkq.Redis.{World}
use mkq.Worker.Failures.{build_failure_history, decode_json_strings, strings_of, or_nil}

-- The JSON array of some texts.
abbrev pub texts : List Bytes → Elements
texts [] = no_element
texts (s ∷ l) = element (string s) (texts l)

strings_of-texts : (l : List Bytes) → strings_of (texts l) ≡ some l
strings_of-texts [] = refl
strings_of-texts (s ∷ l) = rw (strings_of-texts l) refl

-- The texts that a trace holds; none if it cannot be read.
abbrev pub trace_of : World → StringMap → List Bytes
trace_of w m = or_nil (decode_json_strings w (get m (codes "stacktrace")))

-- A job's HASH after failed attempts, each of which stores what `buildFailureHistory` makes of the HASH
-- that it was given.
abbrev pub after_failures : World → StringMap → List Bytes → StringMap
after_failures w m [] = m
after_failures w m (reason ∷ rs) =
    after_failures w (put m (codes "stacktrace") (build_failure_history w m reason).stacktrace) rs

-- The JSON package reads an array of texts back as it wrote it, if all of them are of a kind that it
-- keeps: it puts U+FFFD for bytes that are no UTF-8.
module _ (w : World) (Kept : Bytes → Type 0)
    (reads : (l : List Bytes)
      → All Kept l
      → w.parse_json (w.json_strings l) ≡ some (array (texts l)))
    (written : (l : List Bytes) → is_empty (w.json_strings l) ≡ false) where
  decode-written : (l : List Bytes) → All Kept l → decode_json_strings w (w.json_strings l) ≡ some l
  unfolding decode_json_strings
  decode-written l h = rw (written l, reads l h, strings_of-texts l) refl

  trace-put :
      (m : StringMap) (reason : Bytes)
      → All Kept (trace_of w m)
      → Kept reason
      → trace_of w (put m (codes "stacktrace") (build_failure_history w m reason).stacktrace)
        ≡ trace_of w m ++ reason ∷ []
  unfolding build_failure_history
  trace-put m reason h k =
      rw
        (decode-written (trace_of w m ++ reason ∷ [])
          (All-append Kept (trace_of w m) (reason ∷ []) h (k, tt)))
        refl

  -- If the texts already on record and the reasons are kept by the JSON package: after any number of
  -- failed attempts, each of which stores its trace in the job's HASH for the next one, the trace holds
  -- what was on record before (nothing, if that could not be read) and behind it the reason of every
  -- attempt, once and in order.
  pub build_failure_history-reasons :
      (rs : List Bytes) (m : StringMap)
      → All Kept (trace_of w m)
      → All Kept rs
      → trace_of w (after_failures w m rs) ≡ trace_of w m ++ rs
  build_failure_history-reasons [] m h k = sym (append-nil (trace_of w m))
  build_failure_history-reasons (r ∷ rs) m h k =
      let m' = put m (codes "stacktrace") (build_failure_history w m r).stacktrace in
      let grown = trace-put m r h k.0 in
      let all : All Kept (trace_of w m') =
        rw (grown) (All-append Kept (trace_of w m) (r ∷ []) h (k.0, tt)) in
      build_failure_history-reasons rs m' all k.1
      ∙ ap (λ t. t ++ rs) grown
      ∙ append_assoc (trace_of w m) (r ∷ []) rs
