-- ===== src/Tests/Producer.antt =====
-- Jobs that the test queue is given.
use mkq.Prelude.{◌*◌, true, List, [], ◌∷◌, Option, some, Bytes, codes, ◌≡◌, ◌↔◌, refl, arith, pos}
use mkq.Json.{Json}
use mkq.Failure.{plain, as_delayed, is_unrecoverable}
use mkq.Backoff.{float_zero}
use mkq.JobOpts.{parse_job_opts}
use mkq.JobOpts.RoundTrip.{as_json}
use mkq.Proto.{encode_add_opts}
use mkq.Redis.{World, ok, str}
use mkq.Worker.Config.{second}
use mkq.Worker.Finalise.Attempts.{executions}
use mkq.Worker.Finalise.Calls.{Packs}
use mkq.Queue.Options.{
  AddOption, no_config, set_options, to_proto_opts, with_attempts, with_keep_completed,
  with_deduplication, with_priority,
}
use mkq.Queue.Add.{Queue, Added, refusal, add}
use mkq.Queue.Add.Sends.{Sends, IsHeld, add-Sends, add-duplicate}
use mkq.Queue.Retries.{executions-set_options}
use mkq.Tests.Setup.{plain_floats, open_world, open_world-Packs, worker}

abbrev mail : Queue
mail = record { name = codes "mail"; keys = worker.keys }

abbrev once_a_day : List AddOption
once_a_day =
    with_attempts (pos 4)
    ∷ with_priority 7
    ∷ with_keep_completed (pos 10)
    ∷ with_deduplication (codes "daily") (pos (60 * second))
    ∷ []

-- Redis holds a job of this id for the deduplication key, and the script answers with it.
abbrev holding_daily : World
holding_daily = record open_world { redis = λ h c. ok (str (codes "99")) }

abbrev holding_daily-Packs : Packs holding_daily
holding_daily-Packs = record { bytes = open_world-Packs.bytes; packs = open_world-Packs.packs }

add-Sends_example :
    Sends holding_daily mail holding_daily-Packs
      (codes "{}")
      []
      (set_options once_a_day no_config)
      (add holding_daily mail (ok (codes "{}")) once_a_day [])
add-Sends_example = add-Sends holding_daily mail holding_daily-Packs (codes "{}") [] once_a_day

add-duplicate_example :
    (job : Added) × ((add holding_daily mail (ok (codes "{}")) once_a_day []).0 ≡ ok job)
    × (job.id ≡ codes "99")
    × ((job.duplicate ≡ true)
        ↔ IsHeld holding_daily mail [] (set_options once_a_day no_config) (codes "99"))
unfolding refusal set_options
add-duplicate_example =
    add-duplicate holding_daily mail holding_daily-Packs (codes "{}") [] once_a_day (codes "99")
      refl refl

abbrev reads_daily : Bytes → Option Json
reads_daily raw = some (
    as_json (
      encode_add_opts (plain_floats.lt float_zero)
        (to_proto_opts plain_floats (set_options once_a_day no_config) (pos 0))))

executions-set_options_example :
    executions 9
      (parse_job_opts plain_floats reads_daily (codes "daily"))
      (plain (codes "boom"))
      (λ n. pos 0)
      (pos 0)
    ≡ 4
unfolding set_options to_proto_opts is_unrecoverable as_delayed
executions-set_options_example =
    executions-set_options plain_floats reads_daily once_a_day (codes "daily")
      (plain (codes "boom")) (λ n. pos 0) 4 9 refl refl refl refl (omega arith) (omega arith)
      (omega arith) tt (refl, tt) tt refl refl (λ m. omega arith)
