-- ===== src/Tests/Schedules.antt =====
-- A schedule that starts in the past and ends in the future.
use mkq.Prelude.{List, [], ◌∷◌, some, codes, pos}
use mkq.Redis.{ok}
use mkq.Schedule.Upsert.{}
use mkq.Schedule.Options.{
  ScheduleOption, with_schedule_end_date, with_schedule_start_date, with_schedule_keep_completed,
}
use mkq.Schedule.Upsert.Fires.{Both, upserts-Upserted}
use mkq.Tests.Setup.{open_world, worker}

abbrev options : List ScheduleOption
options =
    with_schedule_start_date (some (pos 1_600_000_000_000_000_000))
    ∷ with_schedule_end_date (some (pos 1_800_000_000_000_000_000))
    ∷ with_schedule_keep_completed (pos 10)
    ∷ []

upserts-Upserted_example :
    Both open_world
      (codes "mail")
      worker.keys
      (codes "nightly")
      (ok (codes "{}"))
      options
      []
      (pos 60_000_000_000)
      (codes "0 3 * * *")
upserts-Upserted_example =
    upserts-Upserted open_world (codes "mail") worker.keys (codes "nightly") (ok (codes "{}"))
      options [] (pos 60_000_000_000) (codes "0 3 * * *")
