-- ===== src/Schedule/Reschedule.antt =====
-- worker.go `rescheduleNext`: queueing the next iteration of a schedule when one has finished.
pub mod Ends
use mkq.Prelude.{
  Bool, ◌&&◌, List, [], ◌∷◌, Option, none, some, Bytes, codes, is_empty, ℤ, pos, ◌+ℤ◌, ltb_ℤ, leb_ℤ,
  floor_div, wrap64, if◌then◌else◌,
}
use mkq.Decimal.{parse_int64, parse_int, show_int}
use mkq.Cron.{cron_next}
use mkq.Keys
use mkq.Keys.{Builder}
use mkq.Redis.{
  Value, str, arr, elements, text, number, Call, eval, hmget, World, Effect, Result, ok, err, ask,
}
use mkq.Redis.Scripts.{update_job_scheduler}
use mkq.Schedule.Opts.{
  ScheduleOpts, TemplateOpts, no_template, encode_delayed_opts, decode_template_opts, not_empty,
}

unfoldable pub as_string : Value → Bytes
as_string (str s) = s
as_string _ = []

-- The eight fields of the scheduler's HASH.
pub record Stored : Type 0 where
  pub limit : ℤ
  pub iterations : ℤ
  pub every_ms : ℤ
  pub start_date : ℤ
  pub end_date : ℤ
  pub pattern : Bytes
  pub tz : Bytes
  pub template : Bytes

abbrev pub stored_fields : List Bytes
stored_fields =
    codes "limit"
    ∷ codes "ic"
    ∷ codes "every"
    ∷ codes "startDate"
    ∷ codes "endDate"
    ∷ codes "pattern"
    ∷ codes "tz"
    ∷ codes "opts"
    ∷ []

abbrev stored_of : List Value → Option Stored
stored_of (a ∷ b ∷ c ∷ d ∷ e ∷ f ∷ g ∷ i ∷ []) = some (record {
  limit = parse_int (as_string a);
  iterations = parse_int (as_string b);
  every_ms = (parse_int64 (as_string c)).0;
  start_date = (parse_int64 (as_string d)).0;
  end_date = (parse_int64 (as_string e)).0;
  pattern = as_string f;
  tz = as_string g;
  template = as_string i;
})
stored_of _ = none

unfoldable pub read_stored : Result Value → Option Stored
unfolding parse_int parse_int64 as_string
read_stored (ok (arr vs)) = stored_of (elements vs)
read_stored _ = none

abbrev pub schedule_opts : Stored → ScheduleOpts
schedule_opts s = record {
  name = [];
  every_ms = s.every_ms;
  pattern = s.pattern;
  tz = s.tz;
  start_date = s.start_date;
  end_date = s.end_date;
  limit = s.limit;
}

abbrev pub fire_ms : Result ℤ → Option (ℤ × Bytes)
fire_ms (ok t) = some (floor_div t 1_000_000, show_int (floor_div t 1_000_000))
fire_ms (err e) = none

abbrev pub past_end : Stored → ℤ → Bool
past_end s next = ltb_ℤ (pos 0) s.end_date && ltb_ℤ s.end_date next

abbrev pub unless_past : Stored → Option (ℤ × Bytes) → Option (ℤ × Bytes)
unless_past s none = none
unless_past s (some (next, arg)) = if past_end s next then none else some (next, arg)

-- The next firing in ms with its ARGV[1], or nothing when the schedule has run its course: the limit is
-- reached, the HASH is gone, the pattern cannot be read, or the firing lies behind the end date.
unfoldable pub plan_next : World → ℤ → Stored → Option (ℤ × Bytes)
plan_next w now s =
    if ltb_ℤ (pos 0) s.limit && leb_ℤ s.limit s.iterations
    then none
    else if leb_ℤ s.every_ms (pos 0) && is_empty s.pattern
    then none
    else unless_past s (
        if not_empty s.pattern
        then fire_ms (cron_next w s.pattern s.tz now)
        else some (wrap64 (floor_div now 1_000_000 +ℤ s.every_ms), codes "0"))

abbrev pub template_or_none : Result TemplateOpts → TemplateOpts
template_or_none (ok t) = t
template_or_none (err e) = no_template

unfoldable pub reschedule_keys : Builder → List Bytes
reschedule_keys b =
    Keys.slot b Keys.repeat
    ∷ Keys.slot b Keys.delayed
    ∷ Keys.slot b Keys.wait
    ∷ Keys.slot b Keys.paused
    ∷ Keys.slot b Keys.meta
    ∷ Keys.slot b Keys.prioritized
    ∷ Keys.slot b Keys.marker
    ∷ Keys.slot b Keys.id
    ∷ Keys.slot b Keys.events
    ∷ Keys.slot b Keys.priority_counter
    ∷ []
    ∷ Keys.slot b Keys.active
    ∷ []

module _ (w : World) (b : Builder) where
  abbrev pub call_scheduler : Bytes → Bytes → Bytes → Bytes → ℤ → Call
  call_scheduler schedule_id job_id arg opts now = eval update_job_scheduler (reschedule_keys b) (
      text arg
      ∷ text schedule_id
      ∷ text (codes "{}")
      ∷ text opts
      ∷ number now
      ∷ text (Keys.base b)
      ∷ text job_id
      ∷ [])

  abbrev pub call_if : Bytes → Bytes → Bytes → Result Bytes → Effect
  call_if schedule_id job_id arg (err e) h = h
  call_if schedule_id job_id arg (ok opts) h =
      call_scheduler schedule_id job_id arg opts (floor_div (w.now h) 1_000_000) ∷ h

  abbrev pub enqueue : Bytes → Bytes → Stored → Option (ℤ × Bytes) → Effect
  enqueue schedule_id job_id s none h = h
  enqueue schedule_id job_id s (some (next, arg)) h =
      call_if schedule_id job_id arg
        (w.pack (
          encode_delayed_opts (schedule_opts s)
            (template_or_none (decode_template_opts w s.template))))
        h

  abbrev pub enqueue_stored : Bytes → Bytes → Option Stored → Effect
  enqueue_stored schedule_id job_id none h = h
  enqueue_stored schedule_id job_id (some s) h =
      enqueue schedule_id job_id s (plan_next w (w.now h) s) h

  -- Errors are dropped at every step: the schedule is best effort.
  unfoldable pub reschedule_next : Bytes → Bytes → Effect
  unfolding read_stored plan_next
  reschedule_next schedule_id job_id h =
      let (v, h') = ask w (hmget (Keys.schedule b schedule_id) stored_fields) h in
      enqueue_stored schedule_id job_id (read_stored v) h'
