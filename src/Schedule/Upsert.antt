-- ===== src/Schedule/Upsert.antt =====
-- schedule.go: the two upserts of a schedule and its removal. Payloads are encoded by the caller.
pub mod Outcome
pub mod Fires
use mkq.Prelude.{
  ℕ, Bool, true, false, not, ◌&&◌, ◌||◌, List, [], ◌∷◌, ◌++◌, Option, none, some, Bytes, codes,
  is_empty, ℤ, pos, quot, floor_div, ltb_ℤ, leb_ℤ, if◌then◌else◌,
}
use mkq.Failure.{Failure, plain, coded, wrap}
use mkq.Decimal.{show_int}
use mkq.Cron.{cron_next}
use mkq.Backoff.{Floats}
use mkq.Keys
use mkq.Keys.{Builder}
use mkq.Proto.{RetentionLimit}
use mkq.Redis.{
  Value, int, text, number, Call, eval, del, zrem, World, History, M, Result, ok, err, ask, checked,
  wrapped, and_then, fail, with_context,
}
use mkq.Redis.Scripts.{add_job_scheduler}
use mkq.Schedule.Opts.{
  ScheduleOpts, TemplateOpts, no_template, encode_schedule_opts, encode_template_opts,
  encode_delayed_opts, not_empty,
}
use mkq.Queue.Options.{whole_seconds}
use mkq.Schedule.Options.{ScheduleConfig, no_schedule_config, ScheduleOption, set_schedule_options}

unfoldable pub schedule_keys : Builder → List Bytes
schedule_keys b =
    Keys.slot b Keys.repeat
    ∷ Keys.slot b Keys.delayed
    ∷ Keys.slot b Keys.wait
    ∷ Keys.slot b Keys.paused
    ∷ Keys.slot b Keys.meta
    ∷ Keys.slot b Keys.prioritized
    ∷ Keys.slot b Keys.marker
    ∷ Keys.slot b Keys.id
    ∷ Keys.slot b Keys.events
    ∷ Keys.slot b Keys.priority_counter
    ∷ Keys.slot b Keys.active
    ∷ []

-- UnixMilli of a date that is set, and 0 of one that is not.
abbrev date_ms : Option ℤ → ℤ
date_ms none = pos 0
date_ms (some t) = floor_div t 1_000_000

abbrev empty_schedule_id : Failure
empty_schedule_id = plain (codes "mkq: scheduleID must be non-empty")

abbrev pub both_starts : Failure
both_starts =
    plain (codes "mkq: WithScheduleImmediately and WithScheduleStartDate are mutually exclusive")

abbrev pub never_runs : Failure
never_runs = plain (codes "mkq: first fire exceeds endDate; schedule would never run")

-- `t.After(endDate)`, for an end date that is set.
abbrev pub past_date : Option ℤ → ℤ → Bool
past_date none t = false
past_date (some d) t = ltb_ℤ d t

-- The first firing of an every-schedule: now, or the start date if that is later.
abbrev pub every_fire : Option ℤ → ℤ → ℤ
every_fire none now = now
every_fire (some d) now = if ltb_ℤ now d then d else now

-- The payloads of the script: the schedule, its template, and the options of an iteration.
pub record Payloads : Type 0 where
  pub opts : Bytes
  pub template : Bytes
  pub delayed : Bytes

module _ (w : World) (name : Bytes) (b : Builder) where
  abbrev pub packed : ScheduleOpts → TemplateOpts → Result Payloads
  packed o t =
      checked (wrapped (codes "mkq: encode schedule opts") (w.pack (encode_schedule_opts o))) (λ x.
        checked (wrapped (codes "mkq: encode template opts") (w.pack (encode_template_opts t)))
          (λ y.
            checked (wrapped (codes "mkq: encode delayed opts") (w.pack (encode_delayed_opts o t)))
              (λ z. ok (record { opts = x; template = y; delayed = z }))))

  abbrev pub scheduler_call : Bytes → Bytes → Payloads → Bytes → ℤ → Call
  scheduler_call schedule_id next_millis p data_json now =
      eval add_job_scheduler (schedule_keys b) (
        text next_millis
        ∷ text p.opts
        ∷ text schedule_id
        ∷ text data_json
        ∷ text p.template
        ∷ text p.delayed
        ∷ number now
        ∷ text (Keys.base b)
        ∷ text []
        ∷ [])

  abbrev code_of : Value → Result (Unit {0})
  code_of (int n) =
      if ltb_ℤ n (pos 0)
      then err (coded (codes "mkq: addJobScheduler returned error code") n)
      else ok tt
  code_of _ = ok tt

  abbrev pub send_schedule : Bytes → Bytes → Bytes → Result Payloads → M (Unit {0})
  send_schedule schedule_id next_millis data_json (err e) h = (err e, h)
  send_schedule schedule_id next_millis data_json (ok p) h =
      let now = floor_div (w.now h) 1_000_000 in
      and_then
        (with_context (codes "mkq: addJobScheduler")
          (ask w (scheduler_call schedule_id next_millis p data_json now)))
        code_of h

  unfoldable pub upsert_schedule :
      Bytes → Bytes → ScheduleOpts → TemplateOpts → Bytes → M (Unit {0})
  upsert_schedule schedule_id next_millis o t data_json =
      send_schedule schedule_id next_millis data_json (packed o t)

  abbrev pub every_opts : ℤ → ScheduleConfig → ScheduleOpts
  every_opts every c = record {
    name = name;
    every_ms = quot every 1_000_000;
    pattern = [];
    tz = [];
    start_date = date_ms c.start_date;
    end_date = date_ms c.end_date;
    limit = c.limit;
  }

  abbrev pub pattern_opts : Bytes → ScheduleConfig → ScheduleOpts
  pattern_opts pattern c = record {
    name = name;
    every_ms = pos 0;
    pattern = pattern;
    tz = c.tz;
    start_date = date_ms c.start_date;
    end_date = date_ms c.end_date;
    limit = c.limit;
  }

  -- What is refused before anything is encoded.
  abbrev pub every_refusal : Bytes → ℤ → ScheduleConfig → Option Failure
  every_refusal schedule_id every c =
      if is_empty schedule_id
      then some empty_schedule_id
      else if leb_ℤ every (pos 0)
      then some (plain (codes "mkq: every must be positive"))
      else if not_empty c.tz || c.immediately
      then some (
          plain (codes "mkq: WithScheduleTimezone / WithScheduleImmediately are pattern-mode only"))
      else none

  -- With the first firing, unless that lies behind the end date.
  abbrev pub unless_over : Bytes → Bytes → ScheduleOpts → ScheduleConfig → ℤ → Bytes → M (Unit {0})
  unless_over schedule_id next_millis o c fire data_json h =
      if past_date c.end_date fire
      then (err never_runs, h)
      else upsert_schedule schedule_id next_millis o c.template data_json h

  abbrev pub every_data : Bytes → ℤ → ScheduleConfig → Result Bytes → M (Unit {0})
  every_data schedule_id every c (err e) h =
      (err (wrap (codes "mkq: marshal schedule payload") e), h)
  every_data schedule_id every c (ok d) h =
      unless_over schedule_id (codes "0") (every_opts every c) c (every_fire c.start_date (w.now h))
        d h

  abbrev pub unless_refused : Option Failure → M (Unit {0}) → M (Unit {0})
  unless_refused (some e) go h = (err e, h)
  unless_refused none go h = go h

  -- `payload` is json.Marshal of the payload.
  unfoldable pub upsert_schedule_every :
      Bytes → ℤ → Result Bytes → List ScheduleOption → M (Unit {0})
  unfolding upsert_schedule set_schedule_options
  upsert_schedule_every schedule_id every payload os =
      let c = set_schedule_options w.floats os no_schedule_config in
      unless_refused (every_refusal schedule_id every c) (every_data schedule_id every c payload)

  abbrev pub pattern_refusal : Bytes → ScheduleConfig → Option Failure
  pattern_refusal schedule_id c =
      if is_empty schedule_id then some empty_schedule_id else elim c.start_date [
        | none ↦ none
        | some d ↦ if c.immediately then some both_starts else none
      ]

  -- Where the search for the first match begins.
  abbrev pub fire_from : Option ℤ → ℤ → ℤ
  fire_from none now = now
  fire_from (some d) now = d

  abbrev pub pattern_data : Bytes → Bytes → ScheduleConfig → ℤ → Result Bytes → M (Unit {0})
  pattern_data schedule_id pattern c fire (err e) h =
      (err (wrap (codes "mkq: marshal schedule payload") e), h)
  pattern_data schedule_id pattern c fire (ok d) h =
      unless_over schedule_id (show_int (floor_div fire 1_000_000)) (pattern_opts pattern c) c fire
        d h

  -- The pattern is read, whether or not the first firing is immediate.
  abbrev pub by_pattern : Bytes → Bytes → ScheduleConfig → Result Bytes → Result ℤ → M (Unit {0})
  by_pattern schedule_id pattern c payload (err e) h = (err e, h)
  by_pattern schedule_id pattern c payload (ok t) h =
      pattern_data schedule_id pattern c (if c.immediately then w.now h else t) payload h

  abbrev pub pattern_fires : Bytes → Bytes → ScheduleConfig → Result Bytes → M (Unit {0})
  pattern_fires schedule_id pattern c payload h =
      by_pattern schedule_id pattern c payload
        (cron_next w pattern c.tz (fire_from c.start_date (w.now h))) h

  unfoldable pub upsert_schedule_pattern :
      Bytes → Bytes → Result Bytes → List ScheduleOption → M (Unit {0})
  unfolding upsert_schedule set_schedule_options
  upsert_schedule_pattern schedule_id pattern payload os =
      let c = set_schedule_options w.floats os no_schedule_config in
      unless_refused (pattern_refusal schedule_id c) (pattern_fires schedule_id pattern c payload)

  -- Both commands of the pipeline are sent; its error is the first of theirs.
  abbrev removed : Bytes → Result Value → Result Value → Result (Unit {0})
  removed schedule_id (err e) r = err (wrap (codes "mkq: remove schedule " ++ schedule_id) e)
  removed schedule_id (ok v) (err e) = err (wrap (codes "mkq: remove schedule " ++ schedule_id) e)
  removed schedule_id (ok v) (ok u) = ok tt

  unfoldable pub remove_schedule : Bytes → M (Unit {0})
  remove_schedule [] h = (err empty_schedule_id, h)
  remove_schedule (i ∷ is) h =
      let first = del (Keys.schedule b (i ∷ is)) in
      let second = zrem (Keys.slot b Keys.repeat) (i ∷ is) in
      (removed (i ∷ is) (w.redis h first) (w.redis (first ∷ h) second), second ∷ first ∷ h)
