-- ===== src/Schedule/Options.antt =====
-- schedule.go: the options of a schedule.
use mkq.Prelude.{Bool, true, false, List, [], ◌∷◌, Option, none, some, Bytes, ℤ, pos}
use mkq.Backoff.{Floats}
use mkq.Proto.{RetentionLimit}
use mkq.Schedule.Opts.{TemplateOpts, no_template}
use mkq.Queue.Options.{whole_seconds}

-- Times are unix nanoseconds, `none` the zero time.
pub record ScheduleConfig : Type 0 where
  pub limit : ℤ
  pub end_date : Option ℤ
  pub start_date : Option ℤ
  pub tz : Bytes
  pub immediately : Bool
  pub template : TemplateOpts

abbrev pub no_schedule_config : ScheduleConfig
no_schedule_config = record {
  limit = pos 0;
  end_date = none;
  start_date = none;
  tz = [];
  immediately = false;
  template = no_template;
}

pub data ScheduleOption : Type 0 where
  with_schedule_limit : ℤ → ScheduleOption
  with_schedule_end_date with_schedule_start_date : Option ℤ → ScheduleOption
  with_schedule_timezone : Bytes → ScheduleOption
  with_schedule_immediately : ScheduleOption
  with_schedule_keep_completed with_schedule_keep_failed : ℤ → ScheduleOption
  with_schedule_keep_completed_age with_schedule_keep_failed_age : ℤ → ScheduleOption

abbrev over {ℓ} : {A : Type ℓ} → Option A → Option A → Option A
over none old = old
over (some x) old = some x

abbrev count_of : Option RetentionLimit → Option ℤ
count_of none = none
count_of (some r) = r.count

abbrev age_of : Option RetentionLimit → Option ℤ
age_of none = none
age_of (some r) = r.age_seconds

unfoldable pub merge_retention : Option RetentionLimit → Option ℤ → Option ℤ → Option RetentionLimit
merge_retention cur count age =
    some (record { count = over count (count_of cur); age_seconds = over age (age_of cur) })

abbrev on_complete : Option ℤ → Option ℤ → ScheduleConfig → ScheduleConfig
on_complete count age c = record c {
  template = record c.template {
    remove_on_complete = merge_retention c.template.remove_on_complete count age;
  };
}

abbrev on_fail : Option ℤ → Option ℤ → ScheduleConfig → ScheduleConfig
on_fail count age c = record c {
  template = record c.template {
    remove_on_fail = merge_retention c.template.remove_on_fail count age;
  };
}

unfoldable pub set_schedule_option : Floats → ScheduleOption → ScheduleConfig → ScheduleConfig
unfolding merge_retention
set_schedule_option fl (with_schedule_limit n) c = record c { limit = n }
set_schedule_option fl (with_schedule_end_date t) c = record c { end_date = t }
set_schedule_option fl (with_schedule_start_date t) c = record c { start_date = t }
set_schedule_option fl (with_schedule_timezone tz) c = record c { tz = tz }
set_schedule_option fl with_schedule_immediately c = record c { immediately = true }
set_schedule_option fl (with_schedule_keep_completed n) c = on_complete (some n) none c
set_schedule_option fl (with_schedule_keep_completed_age age) c =
    on_complete none (some (whole_seconds fl age)) c
set_schedule_option fl (with_schedule_keep_failed n) c = on_fail (some n) none c
set_schedule_option fl (with_schedule_keep_failed_age age) c =
    on_fail none (some (whole_seconds fl age)) c

unfoldable pub set_schedule_options : Floats → List ScheduleOption → ScheduleConfig → ScheduleConfig
unfolding set_schedule_option
set_schedule_options fl [] c = c
set_schedule_options fl (o ∷ os) c = set_schedule_options fl os (set_schedule_option fl o c)
