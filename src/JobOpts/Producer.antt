-- ===== src/JobOpts/Producer.antt =====
-- What a worker reads of the options that `Queue.Add` stores with a job.
use mkq.Prelude.{
  ℕ, Bool, true, false, Option, none, some, Bytes, codes, is_empty, eq_bytes, ◌≡◌, refl, Bool-cases,
  inl, inr, ℤ, pos, negsuc, if◌then◌else◌, ◌∙◌, ap, zero, suc,
}
use mkq.Json.{Json, integer}
use mkq.Backoff.{Floats, BackoffStrategy, float_zero}
use mkq.JobOpts.{
  RawOpts, in_int64, parse_backoff_opt, milliseconds, set_opt, raw_opts, into_int, ◌>>=◌,
  decode_members, parse_job_opts,
}
use mkq.JobOpts.RoundTrip.{
  as_json, as_members, json_of, count_of, age_of, wanted_count, wanted_age, FitsLimit,
  limit-round_trip,
}
use mkq.Proto.{
  AddOpts, Backoff, encode_retention_limit, encode_backoff, encode_add_opts, entry_if, nonzero,
  optional, backoff_map, dedup_map,
}
use mkq.Redis.{Packed, pack_int, pack_bool, Entries, no_entry}

-- The members of an object, decoded one after the other into the struct of parseJobOpts.
abbrev after : Entries → RawOpts → Option RawOpts
after m o = decode_members set_opt (as_members m) o

-- A member whose name is none of the struct's.
abbrev Ignored : Bytes → Type 0
Ignored k = (v : Json) (o : RawOpts) → set_opt k v o ≡ some o

skip_if :
    (b : Bool) (k : Bytes) (v : Packed) (m : Entries) (o : RawOpts)
    → Ignored k
    → after (entry_if b k v m) o ≡ after m o
skip_if true k v m o h = rw (h (as_json v) o)
skip_if false k v m o h = refl

skip_optional :
    (k : Bytes) (v : Option Packed) (m : Entries) (o : RawOpts)
    → Ignored k
    → after (optional k v m) o ≡ after m o
skip_optional k none m o h = refl
skip_optional k (some v) m o h = rw (h (as_json v) o)

into_int-integer : (n old : ℤ) → in_int64 n ≡ true → into_int (integer n) old ≡ some n
into_int-integer n old h = rw h

set_attempts :
    (n : ℤ) (o : RawOpts)
    → in_int64 n ≡ true
    → set_opt (codes "attempts") (integer n) o ≡ some (record o { attempts = n })
set_attempts n o h =
    ap (λ (r : Option ℤ). r >>= λ n'. some (record o { attempts = n' }))
      (into_int-integer n o.attempts h)

take_attempts :
    (n : ℤ) (m : Entries) (o : RawOpts)
    → in_int64 n ≡ true
    → o.attempts ≡ pos 0
    → after (entry_if (nonzero n) (codes "attempts") (pack_int n) m) o
      ≡ after m (record o { attempts = n })
take_attempts (pos zero) m o h e = rw e
take_attempts (pos (suc n)) m o h e =
    ap (λ (r : Option RawOpts). r >>= λ a. after m a) (set_attempts (pos (suc n)) o h)
take_attempts (negsuc n) m o h e =
    ap (λ (r : Option RawOpts). r >>= λ a. after m a) (set_attempts (negsuc n) o h)

take_lifo :
    (b : Bool) (m : Entries) (o : RawOpts)
    → o.lifo ≡ false
    → after (entry_if b (codes "lifo") (pack_bool true) m) o ≡ after m (record o { lifo = b })
take_lifo true m o e = refl
take_lifo false m o e = rw e

module _ (v : Option Packed) (m : Entries) (o : RawOpts) where
  take_backoff :
      o.backoff ≡ none
      → after (optional (codes "backoff") v m) o ≡ after m (record o { backoff = json_of v })
  take_backoff = field v
    where
      field :
          (u : Option Packed)
          → o.backoff ≡ none
          → after (optional (codes "backoff") u m) o ≡ after m (record o { backoff = json_of u })
      field none e = ap (λ b. after m (record o { backoff = b })) e
      field (some u) e = refl

  take_complete :
      o.remove_on_complete ≡ none
      → after (optional (codes "removeOnComplete") v m) o
        ≡ after m (record o { remove_on_complete = json_of v })
  take_complete = field v
    where
      field :
          (u : Option Packed)
          → o.remove_on_complete ≡ none
          → after (optional (codes "removeOnComplete") u m) o
            ≡ after m (record o { remove_on_complete = json_of u })
      field none e = ap (λ b. after m (record o { remove_on_complete = b })) e
      field (some u) e = refl

  take_fail :
      o.remove_on_fail ≡ none
      → after (optional (codes "removeOnFail") v m) o
        ≡ after m (record o { remove_on_fail = json_of v })
  take_fail = field v
    where
      field :
          (u : Option Packed)
          → o.remove_on_fail ≡ none
          → after (optional (codes "removeOnFail") u m) o
            ≡ after m (record o { remove_on_fail = json_of u })
      field none e = ap (λ b. after m (record o { remove_on_fail = b })) e
      field (some u) e = refl

module _ (float_pos : ℕ → Bool) (o : AddOpts) where
  -- The ends of the map that is encoded, from one member on.
  abbrev from_dedup : Entries
  from_dedup = optional (codes "de") (dedup_map o.deduplication) no_entry

  abbrev from_fail : Entries
  from_fail = optional (codes "removeOnFail") (encode_retention_limit o.remove_on_fail) from_dedup

  abbrev from_complete : Entries
  from_complete =
      optional (codes "removeOnComplete") (encode_retention_limit o.remove_on_complete) from_fail

  abbrev from_lifo : Entries
  from_lifo = entry_if o.lifo (codes "lifo") (pack_bool true) from_complete

  abbrev from_backoff : Entries
  from_backoff = optional (codes "backoff") (backoff_map float_pos o.backoff) from_lifo

  abbrev from_attempts : Entries
  from_attempts =
      entry_if (nonzero o.attempts) (codes "attempts") (pack_int o.attempts) from_backoff

  abbrev from_priority : Entries
  from_priority =
      entry_if (nonzero (pos o.priority)) (codes "priority") (pack_int (pos o.priority))
        from_attempts

  -- What the decoder has by then.
  abbrev none_yet : RawOpts
  none_yet = record {
    attempts = pos 0;
    lifo = false;
    backoff = none;
    remove_on_complete = none;
    remove_on_fail = none;
  }

  abbrev with_attempts : RawOpts
  with_attempts = record none_yet { attempts = o.attempts }

  abbrev with_backoff : RawOpts
  with_backoff = record with_attempts { backoff = json_of (backoff_map float_pos o.backoff) }

  abbrev with_lifo : RawOpts
  with_lifo = record with_backoff { lifo = o.lifo }

  abbrev with_complete : RawOpts
  with_complete = record with_lifo {
    remove_on_complete = json_of (encode_retention_limit o.remove_on_complete);
  }

  abbrev with_all : RawOpts
  with_all = record with_complete {
    remove_on_fail = json_of (encode_retention_limit o.remove_on_fail);
  }

  raw_opts-encode :
      in_int64 o.attempts ≡ true
      → raw_opts (some (as_json (encode_add_opts float_pos o))) ≡ some with_all
  unfolding encode_add_opts
  raw_opts-encode h =
      skip_if (nonzero o.delay) (codes "delay") (pack_int o.delay) from_priority none_yet
        (λ v r. refl)
      ∙ skip_if (nonzero (pos o.priority)) (codes "priority") (pack_int (pos o.priority))
          from_attempts none_yet (λ v r. refl)
      ∙ take_attempts o.attempts from_backoff none_yet h refl
      ∙ take_backoff (backoff_map float_pos o.backoff) from_lifo with_attempts refl
      ∙ take_lifo o.lifo from_complete with_backoff refl
      ∙ take_complete (encode_retention_limit o.remove_on_complete) from_fail with_lifo refl
      ∙ take_fail (encode_retention_limit o.remove_on_fail) from_dedup with_complete refl
      ∙ skip_optional (codes "de") (dedup_map o.deduplication) no_entry with_all (λ v r. refl)

-- A backoff as the worker has it: the base delay in whole milliseconds, and the jitter if it is positive.
abbrev pub strategy_for : (ℕ → Bool) → Option Backoff → Option BackoffStrategy
strategy_for float_pos none = none
strategy_for float_pos (some b) =
    if is_empty b.kind
    then none
    else some (record {
      kind = b.kind;
      delay = milliseconds b.delay;
      jitter = if float_pos b.jitter then b.jitter else float_zero;
    })

abbrev pub FitsBackoff : Option Backoff → Type 0
FitsBackoff none = Unit
FitsBackoff (some b) = in_int64 b.delay ≡ true

backoff-round_trip :
    (fl : Floats) (float_pos : ℕ → Bool) (b : Option Backoff)
    → FitsBackoff b
    → parse_backoff_opt fl (json_of (backoff_map float_pos b)) ≡ strategy_for float_pos b
unfolding parse_backoff_opt encode_backoff
backoff-round_trip fl float_pos none h = refl
backoff-round_trip fl float_pos (some b) h = elim (Bool-cases (float_pos b.jitter)) [
  | inl j ↦ rw (j, h)
  | inr j ↦ rw (j, h)
]

-- What `parseJobOpts` gives the worker of a job that `Queue.Add` enqueued with the options `o`, the HASH
-- holding the JSON value of what was sent: the same number of attempts, the same order, the same number
-- of jobs to keep with the age limits that are positive, and the same backoff, its base delay in whole
-- milliseconds. Delay, priority and deduplication do not disturb it.
pub parse_job_opts-encode_add_opts :
    (fl : Floats) (parse_json : Bytes → Option Json) (float_pos : ℕ → Bool) (o : AddOpts)
    (raw : Bytes)
    → is_empty raw ≡ false
    → eq_bytes raw (codes "{}") ≡ false
    → parse_json raw ≡ some (as_json (encode_add_opts float_pos o))
    → in_int64 o.attempts ≡ true
    → FitsBackoff o.backoff
    → FitsLimit o.remove_on_complete
    → FitsLimit o.remove_on_fail
    → let p = parse_job_opts fl parse_json raw in
      (p.attempts ≡ o.attempts)
      × (p.lifo ≡ o.lifo)
      × (p.backoff ≡ strategy_for float_pos o.backoff)
      × (count_of p.remove_on_complete ≡ wanted_count o.remove_on_complete)
      × (age_of p.remove_on_complete ≡ wanted_age o.remove_on_complete)
      × (count_of p.remove_on_fail ≡ wanted_count o.remove_on_fail)
      × (age_of p.remove_on_fail ≡ wanted_age o.remove_on_fail)
unfolding parse_job_opts
parse_job_opts-encode_add_opts fl parse_json float_pos o raw some_text not_braces stored ha hb hc
      hf =
    rw (some_text, not_braces, stored, raw_opts-encode float_pos o ha)
      (
        refl,
        refl,
        backoff-round_trip fl float_pos o.backoff hb,
        (limit-round_trip o.remove_on_complete hc).0,
        (limit-round_trip o.remove_on_complete hc).1,
        (limit-round_trip o.remove_on_fail hf).0,
        (limit-round_trip o.remove_on_fail hf).1,
      )
