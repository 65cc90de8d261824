-- ===== src/JobOpts.antt =====
-- worker.go: the per-job options as the worker reads them back from the job's HASH. A value of a Go
-- struct field is decoded the way encoding/json does: null leaves the field alone, a value of another
-- kind is an error, and a member's name is matched without regard to (ASCII) case, the last one wins.
pub mod RoundTrip
pub mod Producer
use mkq.Prelude.{
  ℕ, ◌+◌, ◌&&◌, Bool, true, false, [], map, Option, none, some, Bytes, codes, eq_bytes, is_empty,
  leb, ℤ, pos, negsuc, ◌*ℤ◌, wrap64, max_int64, if◌then◌else◌,
}
use mkq.Json.{Json, null, boolean, integer, real, string, object, Members, no_member, member}
use mkq.Backoff.{BackoffStrategy, Floats, float_zero, fixed}

pub record RetentionLimit : Type 0 where
  pub count : Option ℤ
  pub age_seconds : Option ℤ

pub record JobOpts : Type 0 where
  pub attempts : ℤ
  pub backoff : Option BackoffStrategy
  pub lifo : Bool
  pub remove_on_complete : Option RetentionLimit
  pub remove_on_fail : Option RetentionLimit

abbrev pub no_opts : JobOpts
no_opts = record {
  attempts = pos 0;
  backoff = none;
  lifo = false;
  remove_on_complete = none;
  remove_on_fail = none;
}

abbrev lower : ℕ → ℕ
lower c = if leb b'A' c && leb c b'Z' then c + 32 else c

-- Whether a member's name stands for the struct field of this tag.
abbrev pub names : Bytes → Bytes → Bool
names tag key = eq_bytes (map lower key) (map lower tag)

abbrev pub in_int64 : ℤ → Bool
in_int64 (pos n) = leb n max_int64
in_int64 (negsuc n) = leb n max_int64

-- Decoding into an int field that holds `old`; `none` is an UnmarshalTypeError.
abbrev pub into_int : Json → ℤ → Option ℤ
into_int null old = some old
into_int (integer n) old = if in_int64 n then some n else none
into_int _ old = none

abbrev pub into_bool : Json → Bool → Option Bool
into_bool null old = some old
into_bool (boolean b) old = some b
into_bool _ old = none

abbrev pub into_string : Json → Bytes → Option Bytes
into_string null old = some old
into_string (string s) old = some s
into_string _ old = none

abbrev pub into_int_pointer : Json → Option (Option ℤ)
into_int_pointer null = some none
into_int_pointer (integer n) = if in_int64 n then some (some n) else none
into_int_pointer _ = none

infixl 5 ◌>>=◌
abbrev pub ◌>>=◌ : {A B : Type 0} → Option A → (A → Option B) → Option B
none >>= f = none
some a >>= f = f a

-- The loop over the members of an object; `set` stores one member.
abbrev pub decode_members : {A : Type 0} → (Bytes → Json → A → Option A) → Members → A → Option A
decode_members set no_member a = some a
decode_members set (member k v ms) a = do a' ← set k v a; decode_members set ms a'

abbrev pub set_retention : Bytes → Json → RetentionLimit → Option RetentionLimit
set_retention k v r =
    if names (codes "count") k
    then (do n ← into_int_pointer v; some (record r { count = n }))
    else if names (codes "age") k
    then (do n ← into_int_pointer v; some (record r { age_seconds = n }))
    else some r

-- `err == nil && (obj.Count != nil || obj.Age != nil)`.
abbrev pub some_limit : Option RetentionLimit → Option RetentionLimit
some_limit none = none
some_limit (some r) = elim r.count [
  | some n ↦ some r
  | none ↦ elim r.age_seconds [ some n ↦ some r | none ↦ none ]
]

unfoldable pub parse_remove_opt : Option Json → Option RetentionLimit
parse_remove_opt none = none
parse_remove_opt (some (boolean true)) = some (record { count = some (pos 0); age_seconds = none })
parse_remove_opt (some (integer n)) =
    if in_int64 n then some (record { count = some n; age_seconds = none }) else none
parse_remove_opt (some (object ms)) =
    some_limit (decode_members set_retention ms (record { count = none; age_seconds = none }))
parse_remove_opt (some _) = none

-- `time.Duration(ms) * time.Millisecond`.
unfoldable pub milliseconds : ℤ → ℤ
milliseconds ms = wrap64 (ms *ℤ pos 1_000_000)

pub record BackoffFields : Type 0 where
  pub kind : Bytes
  pub delay : ℤ
  pub jitter : ℕ

module _ (fl : Floats) where
  abbrev into_float : Json → ℕ → Option ℕ
  into_float null old = some old
  into_float (integer n) old = some (fl.of_int64 n)
  into_float (real x) old = some x
  into_float _ old = none

  abbrev pub set_backoff : Bytes → Json → BackoffFields → Option BackoffFields
  set_backoff k v b =
      if names (codes "type") k
      then (do s ← into_string v b.kind; some (record b { kind = s }))
      else if names (codes "delay") k
      then (do n ← into_int v b.delay; some (record b { delay = n }))
      else if names (codes "jitter") k
      then (do x ← into_float v b.jitter; some (record b { jitter = x }))
      else some b

  abbrev pub strategy_of : Option BackoffFields → Option BackoffStrategy
  strategy_of none = none
  strategy_of (some b) =
      if is_empty b.kind
      then none
      else some (record { kind = b.kind; delay = milliseconds b.delay; jitter = b.jitter })

  unfoldable pub parse_backoff_opt : Option Json → Option BackoffStrategy
  unfolding milliseconds
  parse_backoff_opt none = none
  parse_backoff_opt (some (integer n)) =
      if in_int64 n
      then some (record { kind = fixed; delay = milliseconds n; jitter = float_zero })
      else none
  parse_backoff_opt (some (object ms)) =
      strategy_of
        (decode_members set_backoff ms (record { kind = []; delay = pos 0; jitter = float_zero }))
  parse_backoff_opt (some _) = none

-- The struct `m` of parseJobOpts; a RawMessage that no member sets stays empty.
pub record RawOpts : Type 0 where
  pub attempts : ℤ
  pub lifo : Bool
  pub backoff : Option Json
  pub remove_on_complete : Option Json
  pub remove_on_fail : Option Json

abbrev pub set_opt : Bytes → Json → RawOpts → Option RawOpts
set_opt k v o =
    if names (codes "attempts") k
    then (do n ← into_int v o.attempts; some (record o { attempts = n }))
    else if names (codes "lifo") k
    then (do b ← into_bool v o.lifo; some (record o { lifo = b }))
    else if names (codes "backoff") k
    then some (record o { backoff = some v })
    else if names (codes "removeOnComplete") k
    then some (record o { remove_on_complete = some v })
    else if names (codes "removeOnFail") k
    then some (record o { remove_on_fail = some v })
    else some o

abbrev pub raw_opts : Option Json → Option RawOpts
raw_opts (some (object ms)) = decode_members set_opt ms (record {
  attempts = pos 0;
  lifo = false;
  backoff = none;
  remove_on_complete = none;
  remove_on_fail = none;
})
raw_opts _ = none

module _ (fl : Floats) (parse_json : Bytes → Option Json) where
  abbrev pub opts_of : Option RawOpts → JobOpts
  opts_of none = no_opts
  opts_of (some m) = record {
    attempts = m.attempts;
    backoff = parse_backoff_opt fl m.backoff;
    lifo = m.lifo;
    remove_on_complete = parse_remove_opt m.remove_on_complete;
    remove_on_fail = parse_remove_opt m.remove_on_fail;
  }

  -- A top-level null, like any error, leaves every option at its zero value.
  unfoldable pub parse_job_opts : Bytes → JobOpts
  unfolding parse_backoff_opt parse_remove_opt
  parse_job_opts raw =
      if is_empty raw
      then no_opts
      else if eq_bytes raw (codes "{}")
      then no_opts
      else opts_of (raw_opts (parse_json raw))
