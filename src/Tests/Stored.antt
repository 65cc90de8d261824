-- ===== src/Tests/Stored.antt =====
-- What Redis stores for the test worker, and what is read back.
use mkq.Prelude.{
  ℕ, ltb, Bool, true, [], ◌∷◌, Option, none, some, Bytes, codes, ◌≡◌, refl, pos, length, find,
  StringMap,
}
use mkq.Json.{Json}
use mkq.JobOpts.{parse_job_opts, milliseconds}
use mkq.JobOpts.RoundTrip.{as_json, count_of, age_of}
use mkq.JobOpts.Producer.{parse_job_opts-encode_add_opts}
use mkq.Proto.{AddOpts, encode_add_opts}
use mkq.Keys
use mkq.Keys.{
  Builder, to_failed, move_to_active_keys, move_to_finished_keys, retry_job_keys, move_stalled_keys,
  move_to_delayed_keys,
}
use mkq.Redis.{World, nil, str, int, arr, values, ok, hmget, Call}
use mkq.Reply.{got_job, parse_move_to_active_result}
use mkq.Reply.RoundTrip.{flatten, last_value, parse_move_to_active_result-job}
use mkq.Schedule.Reschedule.{reschedule_next, read_stored, stored_fields}
use mkq.Schedule.Reschedule.Ends.{Asks, reschedule_next-Asks}
use mkq.Tests.Setup.{plain_floats, open_world, worker, job_id}

abbrev mail_opts : AddOpts
mail_opts = record {
  delay = pos 0;
  priority = 2;
  attempts = pos 5;
  backoff = some (record { kind = codes "exponential"; delay = pos 1000; jitter = 0 });
  lifo = true;
  remove_on_complete = some (record { count = some (pos 10); age_seconds = some (pos 3600) });
  remove_on_fail = none;
  deduplication = none;
}

abbrev is_pos_float : ℕ → Bool
is_pos_float x = ltb 0 x

abbrev reads_mail : Bytes → Option Json
reads_mail raw = some (as_json (encode_add_opts is_pos_float mail_opts))

parse_job_opts-encode_add_opts_example :
    let p = parse_job_opts plain_floats reads_mail (codes "mail") in
    (p.attempts ≡ pos 5)
    × (p.lifo ≡ true)
    × (p.backoff
        ≡ some (record { kind = codes "exponential"; delay = pos 1_000_000_000; jitter = 0 }))
    × (count_of p.remove_on_complete ≡ some (pos 10))
    × (age_of p.remove_on_complete ≡ some (pos 3600))
    × (count_of p.remove_on_fail ≡ none)
    × (age_of p.remove_on_fail ≡ none)
unfolding milliseconds
parse_job_opts-encode_add_opts_example =
    parse_job_opts-encode_add_opts plain_floats reads_mail is_pos_float mail_opts (codes "mail")
      refl refl refl refl refl (refl, refl) tt

abbrev mail_hash : StringMap
mail_hash = (codes "name", codes "send") ∷ (codes "atm", codes "1") ∷ []

parse_move_to_active_result-job_example :
    (m' : StringMap) × (parse_move_to_active_result plain_floats
        (arr (values (arr (values (flatten mail_hash)) ∷ str job_id ∷ int (pos 0) ∷ nil ∷ [])))
      ≡ ok (got_job m' job_id))
    × ((k : Bytes) → find m' k ≡ last_value mail_hash k none)
parse_move_to_active_result-job_example =
    parse_move_to_active_result-job plain_floats mail_hash job_id (int (pos 0)) nil refl

-- A schedule that fires every minute, twice of three times so far.
abbrev minutely : World
minutely = record open_world {
  redis = λ h c. ok (
      arr (
        values (
          str (codes "3")
          ∷ str (codes "2")
          ∷ str (codes "60000")
          ∷ nil
          ∷ nil
          ∷ nil
          ∷ nil
          ∷ nil
          ∷ [])));
}

abbrev minutely_read : Call
minutely_read = hmget (Keys.schedule worker.keys (codes "digest")) stored_fields

reschedule_next-Asks_example :
    Asks minutely worker.keys
      (codes "digest")
      job_id
      (minutely_read ∷ [])
      (read_stored (minutely.redis [] minutely_read))
      (reschedule_next minutely worker.keys (codes "digest") job_id [])
reschedule_next-Asks_example = reschedule_next-Asks minutely worker.keys (codes "digest") job_id []

-- That schedule's next job is asked for.
minutely_asks : length (reschedule_next minutely worker.keys (codes "digest") job_id []) ≡ 2
unfolding reschedule_next
minutely_asks = refl
