-- ===== src/Proto.antt =====
-- internal/proto: the options and arguments as they are handed to the msgpack encoder.
pub mod Pool
use mkq.Prelude.{
  ℕ, zero, ◌%◌, Bool, true, false, List, [], ◌∷◌, Option, none, some, Bytes, codes, is_empty, ◌==◌,
  length, ℤ, pos, ltb_ℤ, leb_ℤ, if◌then◌else◌,
}
use mkq.Failure.{plain}
use mkq.Redis.{
  Packed, pack_nil, pack_str, pack_int, pack_float, pack_bool, pack_map, pack_list, Entries,
  no_entry, entry, Items, no_item, item, World, Result, ok, err,
}

-- An entry that a map has only under a condition.
abbrev pub entry_if : Bool → Bytes → Packed → Entries → Entries
entry_if true k v r = entry k v r
entry_if false k v r = r

abbrev pub is_pos : ℤ → Bool
is_pos n = ltb_ℤ (pos 0) n

pub record MoveToActiveLimiter : Type 0 where
  pub max : ℤ
  pub duration_ms : ℤ

pub record MoveToActiveOpts : Type 0 where
  pub token : Bytes
  pub lock_duration : ℤ
  pub name : Bytes
  pub limiter : Option MoveToActiveLimiter

abbrev limiter_map : MoveToActiveLimiter → Packed
limiter_map l = pack_map (
    entry (codes "max") (pack_int l.max)
      (entry (codes "duration") (pack_int l.duration_ms) no_entry))

abbrev not_empty : Bytes → Bool
not_empty [] = false
not_empty (_ ∷ _) = true

abbrev active_limiter : Option MoveToActiveLimiter → Entries
active_limiter none = no_entry
active_limiter (some l) = entry (codes "limiter") (limiter_map l) no_entry

unfoldable pub encode_move_to_active_opts : MoveToActiveOpts → Packed
encode_move_to_active_opts o = pack_map (
    entry (codes "token") (pack_str o.token) (
      entry (codes "lockDuration") (pack_int o.lock_duration)
        (entry_if (not_empty o.name) (codes "name") (pack_str o.name) (active_limiter o.limiter))))

pub record KeepJobs : Type 0 where
  pub count : Option ℤ
  pub age : ℤ

pub record MoveToFinishedOpts : Type 0 where
  pub token : Bytes
  pub lock_duration : ℤ
  pub attempts : ℤ
  pub keep_jobs : Option KeepJobs
  pub name : Bytes
  pub limiter : Option MoveToActiveLimiter
  pub max_metrics_size : ℤ

abbrev pub optional_int : Bytes → Option ℤ → Entries → Entries
optional_int k none r = r
optional_int k (some n) r = entry k (pack_int n) r

abbrev keep_map : Option KeepJobs → Entries
keep_map none = no_entry
keep_map (some k) =
    optional_int (codes "count") k.count
      (entry_if (is_pos k.age) (codes "age") (pack_int k.age) no_entry)

abbrev finish_limiter : Option MoveToActiveLimiter → Entries
finish_limiter none = no_entry
finish_limiter (some l) =
    if is_pos l.max
    then entry_if (is_pos l.duration_ms) (codes "limiter") (limiter_map l) no_entry
    else no_entry

-- `show` is strconv.Itoa.
unfoldable pub encode_move_to_finished_opts : (ℤ → Bytes) → MoveToFinishedOpts → Packed
encode_move_to_finished_opts show o = pack_map (
    entry (codes "token") (pack_str o.token) (
      entry (codes "lockDuration") (pack_int o.lock_duration) (
        entry (codes "attempts") (pack_int o.attempts) (
          entry (codes "keepJobs") (pack_map (keep_map o.keep_jobs)) (
            entry (codes "maxMetricsSize")
              (pack_str (if is_pos o.max_metrics_size then show o.max_metrics_size else []))
              (entry_if (not_empty o.name) (codes "name") (pack_str o.name)
                (finish_limiter o.limiter)))))))

abbrev pub items : List Packed → Items
items [] = no_item
items (p ∷ ps) = item p (items ps)

module _ (w : World) where
  -- No bytes for no pairs, and an error for an odd number of arguments.
  unfoldable pub encode_job_fields : List Packed → Result Bytes
  encode_job_fields [] = ok []
  encode_job_fields (p ∷ ps) =
      if length (p ∷ ps) % 2 == 0
      then w.pack (pack_list (items (p ∷ ps)))
      else err (plain (codes "proto: EncodeJobFields requires an even number of arguments"))

-- The producer's side: opts.go.
pub record RetentionLimit : Type 0 where
  pub count : Option ℤ
  pub age_seconds : Option ℤ

pub record Backoff : Type 0 where
  pub kind : Bytes
  pub delay : ℤ
  pub jitter : ℕ

pub record Deduplication : Type 0 where
  pub dedup_id : Bytes
  pub ttl_millis : ℤ

pub record AddOpts : Type 0 where
  pub delay : ℤ
  pub priority : ℕ
  pub attempts : ℤ
  pub backoff : Option Backoff
  pub lifo : Bool
  pub remove_on_complete : Option RetentionLimit
  pub remove_on_fail : Option RetentionLimit
  pub deduplication : Option Deduplication

abbrev pub bare_count : Option ℤ → Option Packed
bare_count none = none
bare_count (some n) = some (pack_int n)

-- A bare number when there is no positive age, else the map of count and age.
unfoldable pub encode_retention_limit : Option RetentionLimit → Option Packed
encode_retention_limit none = none
encode_retention_limit (some r) = elim r.age_seconds [
  | none ↦ bare_count r.count
  | some age ↦
      if leb_ℤ age (pos 0)
      then bare_count r.count
      else some (
          pack_map
            (optional_int (codes "count") r.count (entry (codes "age") (pack_int age) no_entry)))
]

-- `float_pos` is the comparison `Jitter > 0`.
unfoldable pub encode_backoff : (ℕ → Bool) → Backoff → Packed
encode_backoff float_pos b = pack_map (
    entry (codes "type") (pack_str b.kind) (
      entry (codes "delay") (pack_int b.delay)
        (entry_if (float_pos b.jitter) (codes "jitter") (pack_float b.jitter) no_entry)))

abbrev pub nonzero : ℤ → Bool
nonzero (pos zero) = false
nonzero _ = true

abbrev pub optional : Bytes → Option Packed → Entries → Entries
optional k none r = r
optional k (some v) r = entry k v r

abbrev pub dedup_map : Option Deduplication → Option Packed
dedup_map none = none
dedup_map (some d) =
    if is_empty d.dedup_id
    then none
    else some (
        pack_map (
          entry (codes "id") (pack_str d.dedup_id)
            (entry_if (is_pos d.ttl_millis) (codes "ttl") (pack_int d.ttl_millis) no_entry)))

abbrev pub backoff_map : (ℕ → Bool) → Option Backoff → Option Packed
backoff_map float_pos none = none
backoff_map float_pos (some b) = some (encode_backoff float_pos b)

unfoldable pub encode_add_opts : (ℕ → Bool) → AddOpts → Packed
unfolding encode_retention_limit encode_backoff
encode_add_opts float_pos o = pack_map (
    entry_if (nonzero o.delay) (codes "delay") (pack_int o.delay) (
      entry_if (nonzero (pos o.priority)) (codes "priority") (pack_int (pos o.priority)) (
        entry_if (nonzero o.attempts) (codes "attempts") (pack_int o.attempts) (
          optional (codes "backoff") (backoff_map float_pos o.backoff) (
            entry_if o.lifo (codes "lifo") (pack_bool true) (
              optional (codes "removeOnComplete") (encode_retention_limit o.remove_on_complete) (
                optional (codes "removeOnFail") (encode_retention_limit o.remove_on_fail)
                  (optional (codes "de") (dedup_map o.deduplication) no_entry))))))))

-- args.go: the fixed array of nine; the parent and repeat slots are never filled by `Add`.
pub record AddArgs : Type 0 where
  pub prefix : Bytes
  pub custom_id : Bytes
  pub name : Bytes
  pub timestamp : ℤ
  pub deduplication_key : Bytes

abbrev nil_or_string : Bytes → Packed
nil_or_string [] = pack_nil
nil_or_string (c ∷ s) = pack_str (c ∷ s)

unfoldable pub encode_add_args : AddArgs → Packed
encode_add_args a = pack_list (
    items (
      pack_str a.prefix
      ∷ pack_str a.custom_id
      ∷ pack_str a.name
      ∷ pack_int a.timestamp
      ∷ pack_nil
      ∷ pack_nil
      ∷ pack_nil
      ∷ pack_nil
      ∷ nil_or_string a.deduplication_key
      ∷ []))
