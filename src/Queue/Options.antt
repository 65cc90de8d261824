-- ===== src/Queue/Options.antt =====
-- options.go: the options of `Queue.Add`, and their translation by queue.go `toProtoOpts`.
use mkq.Prelude.{
  ℕ, Bool, true, false, List, [], ◌∷◌, Option, none, some, Bytes, ℤ, pos, quot, ◌-ℤ◌, ◌*ℤ◌,
}
use mkq.Backoff.{BackoffStrategy, Floats}
use mkq.Proto.{AddOpts, Backoff, Deduplication, RetentionLimit}
use mkq.Worker.Config.{second, millisecond}

pub record AddConfig : Type 0 where
  pub job_id : Bytes
  pub job_name : Bytes
  pub job_name_set : Bool
  pub delay : ℤ
  pub attempts : ℤ
  pub priority : ℕ
  pub lifo : Bool
  pub backoff : Option BackoffStrategy
  pub keep_completed : Option ℤ
  pub keep_failed : Option ℤ
  pub keep_completed_age : Option ℤ
  pub keep_failed_age : Option ℤ
  pub dedup_id : Bytes
  pub dedup_ttl : ℤ
  pub dedup_set : Bool

abbrev pub no_config : AddConfig
no_config = record {
  job_id = [];
  job_name = [];
  job_name_set = false;
  delay = pos 0;
  attempts = pos 0;
  priority = 0;
  lifo = false;
  backoff = none;
  keep_completed = none;
  keep_failed = none;
  keep_completed_age = none;
  keep_failed_age = none;
  dedup_id = [];
  dedup_ttl = pos 0;
  dedup_set = false;
}

-- One constructor for each option; `WithUnique` is `WithDeduplication`.
pub data AddOption : Type 0 where
  with_job_id : Bytes → AddOption
  with_job_name : Bytes → AddOption
  with_delay : ℤ → AddOption
  with_attempts : ℤ → AddOption
  with_priority : ℕ → AddOption
  with_lifo : Bool → AddOption
  with_backoff : BackoffStrategy → AddOption
  with_keep_completed : ℤ → AddOption
  with_keep_failed : ℤ → AddOption
  with_keep_completed_age : ℤ → AddOption
  with_keep_failed_age : ℤ → AddOption
  with_deduplication : Bytes → ℤ → AddOption

unfoldable pub set_option : AddOption → AddConfig → AddConfig
set_option (with_job_id id) c = record c { job_id = id }
set_option (with_job_name name) c = record c { job_name = name; job_name_set = true }
set_option (with_delay d) c = record c { delay = d }
set_option (with_attempts n) c = record c { attempts = n }
set_option (with_priority p) c = record c { priority = p }
set_option (with_lifo b) c = record c { lifo = b }
set_option (with_backoff b) c = record c { backoff = some b }
set_option (with_keep_completed n) c = record c { keep_completed = some n }
set_option (with_keep_failed n) c = record c { keep_failed = some n }
set_option (with_keep_completed_age d) c = record c { keep_completed_age = some d }
set_option (with_keep_failed_age d) c = record c { keep_failed_age = some d }
set_option (with_deduplication id ttl) c = record c {
  dedup_id = id;
  dedup_ttl = ttl;
  dedup_set = true;
}

-- The loop over the options of a call.
unfoldable pub set_options : List AddOption → AddConfig → AddConfig
unfolding set_option
set_options [] c = c
set_options (o ∷ os) c = set_options os (set_option o c)

module _ (fl : Floats) where
  -- `int(d.Seconds())`: whole seconds and the rest, added as float64, and truncated.
  unfoldable pub whole_seconds : ℤ → ℤ
  whole_seconds d =
      let rest = d -ℤ quot d second *ℤ pos second in
      fl.to_int64 (
        fl.add (fl.of_int64 (quot d second)) (fl.div (fl.of_int64 rest) (fl.of_int64 (pos second))))

  unfoldable pub build_retention_limit : Option ℤ → Option ℤ → Option RetentionLimit
  unfolding whole_seconds
  build_retention_limit none none = none
  build_retention_limit (some n) none = some (record { count = some n; age_seconds = none })
  build_retention_limit count (some age) =
      some (record { count = count; age_seconds = some (whole_seconds age) })

  abbrev proto_backoff : Option BackoffStrategy → Option Backoff
  proto_backoff none = none
  proto_backoff (some b) =
      some (record { kind = b.kind; delay = quot b.delay millisecond; jitter = b.jitter })

  abbrev proto_dedup : Bytes → ℤ → Option Deduplication
  proto_dedup [] ttl = none
  proto_dedup (c ∷ s) ttl = some (record { dedup_id = c ∷ s; ttl_millis = quot ttl millisecond })

  unfoldable pub to_proto_opts : AddConfig → ℤ → AddOpts
  unfolding build_retention_limit
  to_proto_opts c delay_ms = record {
    delay = delay_ms;
    priority = c.priority;
    attempts = c.attempts;
    backoff = proto_backoff c.backoff;
    lifo = c.lifo;
    remove_on_complete = build_retention_limit c.keep_completed c.keep_completed_age;
    remove_on_fail = build_retention_limit c.keep_failed c.keep_failed_age;
    deduplication = proto_dedup c.dedup_id c.dedup_ttl;
  }
