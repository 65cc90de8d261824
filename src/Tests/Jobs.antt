-- ===== src/Tests/Jobs.antt =====
-- What becomes of the jobs of the test worker.
use mkq.Backoff.{compute_backoff_delay}
use mkq.Worker.Config.{configure}
use mkq.Decimal.{parse_int}
use mkq.Worker.Retry.{compute_retry_delay, should_retry}
use mkq.Prelude.{
  ℕ, zero, suc, Bool, true, false, ltb, ◌&&◌, List, [], Option, StringMap, ap, ◌∷◌, none, some,
  Bytes, codes, ◌≡◌, refl, arith, pos,
}
use mkq.Failure.{plain, as_delayed, is_unrecoverable}
use mkq.Keys
use mkq.JobOpts.{JobOpts, parse_job_opts}
use mkq.Json.{Json, string, array, Elements, no_element, element}
use mkq.Redis.{World, hget}
use mkq.Worker.Finalise.Defs.{Outcome, failure, finalise, opts_of_job}
use mkq.Worker.Finalise.Calls.{again_after, Adds}
use mkq.Worker.Finalise.Verdict.{verdict, attempts_so_far, delay_of, before, finalise-Adds}
use mkq.Worker.Finalise.Reports.{finalise-Reports}
use mkq.Worker.Finalise.Reports.Answers.{Reports}
use mkq.Worker.Finalise.Attempts.{executions, executions-eq-attempts}
use mkq.Worker.Failures.{decode_json_strings}
use mkq.Worker.Failures.Grow.{texts, trace_of, after_failures, build_failure_history-reasons}
use mkq.Tests.Setup.{open_world, open_world-Packs, worker, job_map, job_id, token}

abbrev boom : Outcome
boom = failure (plain (codes "boom")) (codes "boom")

abbrev two_left : JobOpts
two_left = record {
  attempts = pos 3;
  backoff = none;
  lifo = false;
  remove_on_complete = none;
  remove_on_fail = none;
}

-- A codec for arrays of texts: the bytes one higher, and a 0 behind each text.
abbrev write_text : Bytes → Bytes → Bytes
write_text [] rest = 0 ∷ rest
write_text (c ∷ s) rest = suc c ∷ write_text s rest

abbrev write_texts : List Bytes → Bytes
write_texts [] = []
write_texts (s ∷ l) = write_text s (write_texts l)

abbrev put_byte : ℕ → Elements → Elements
put_byte c (element (string s) l) = element (string (c ∷ s)) l
put_byte c l = l

abbrev read_texts : Bytes → Elements
read_texts [] = no_element
read_texts (zero ∷ r) = element (string []) (read_texts r)
read_texts (suc c ∷ r) = put_byte c (read_texts r)

abbrev read_array : Bytes → Option Json
read_array [] = none
read_array (c ∷ r) = some (array (read_texts r))

read_texts-write_text :
    (s rest : Bytes) → read_texts (write_text s rest) ≡ element (string s) (read_texts rest)
read_texts-write_text [] rest = refl
read_texts-write_text (c ∷ s) rest = rw (read_texts-write_text s rest) refl

read_texts-write_texts : (l : List Bytes) → read_texts (write_texts l) ≡ texts l
read_texts-write_texts [] = refl
read_texts-write_texts (s ∷ l) =
    rw (read_texts-write_text s (write_texts l), read_texts-write_texts l) refl

abbrev written_back : World
written_back = record open_world {
  json_strings = λ l. b'[' ∷ write_texts l;
  parse_json = read_array;
}

reads_back :
    (l : List Bytes)
    → written_back.parse_json (written_back.json_strings l) ≡ some (array (texts l))
reads_back l = ap (λ r. some (array r)) (read_texts-write_texts l)

abbrev failed_once : StringMap
failed_once = (codes "stacktrace", b'[' ∷ write_texts (codes "boom" ∷ [])) ∷ []

-- The second failure of three: the job is put off by two seconds.
finalise-Adds_example :
    Adds worker job_id token
      (again_after (pos 2000))
      (hget (Keys.job worker.keys job_id) (codes "atm") ∷ [])
      (finalise open_world worker job_id token job_map boom []).1
unfolding should_retry compute_retry_delay parse_job_opts parse_int as_delayed is_unrecoverable
    configure compute_backoff_delay
finalise-Adds_example =
    finalise-Adds open_world worker job_id token job_map open_world-Packs boom []

finalise-Reports_example :
    Reports open_world token
      (verdict
        (opts_of_job open_world worker job_id token job_map)
        boom
        (attempts_so_far open_world worker job_id token job_map [])
        (delay_of open_world worker job_id token job_map boom []))
      (before open_world worker job_id token job_map boom [])
      (finalise open_world worker job_id token job_map boom []).0
      (finalise open_world worker job_id token job_map boom []).1
finalise-Reports_example = finalise-Reports open_world worker job_id token job_map boom []

executions-eq-attempts_example :
    executions 5 two_left (plain (codes "boom")) (λ n. pos 1000) (pos 0) ≡ 3
unfolding is_unrecoverable as_delayed
executions-eq-attempts_example =
    executions-eq-attempts two_left (plain (codes "boom")) (λ n. pos 1000) 3 refl (omega arith) refl
      refl (λ n. omega arith) 5 (omega arith) (omega arith)

-- Texts of seven-bit characters.
abbrev is_ascii : Bytes → Bool
is_ascii [] = true
is_ascii (c ∷ s) = ltb c 128 && is_ascii s

-- The job's first failure is on record already; it fails twice more.
build_failure_history-reasons_example :
    trace_of written_back
      (after_failures written_back failed_once (codes "slow" ∷ codes "gone" ∷ []))
    ≡ codes "boom" ∷ codes "slow" ∷ codes "gone" ∷ []
unfolding decode_json_strings
build_failure_history-reasons_example =
    build_failure_history-reasons written_back (λ s. is_ascii s ≡ true) (λ l h. reads_back l)
      (λ l. refl) (codes "slow" ∷ codes "gone" ∷ []) failed_once (refl, tt) (refl, (refl, tt))
