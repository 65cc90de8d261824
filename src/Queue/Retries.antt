-- ===== src/Queue/Retries.antt =====
-- queue.go and worker.go together: the number of attempts that a producer asks for is the number of runs.
use mkq.Prelude.{
  ℕ, List, true, false, Option, some, none, Bytes, codes, is_empty, eq_bytes, ℤ, pos, ◌≡◌, ◌≤◌, ◌<◌,
  ◌≤ℤ◌, max_int64, ◌∙◌, arith,
}
use mkq.Json.{Json}
use mkq.Failure.{Failure, is_unrecoverable, as_delayed}
use mkq.Backoff.{Floats, float_zero}
use mkq.Proto.{encode_add_opts}
use mkq.JobOpts.{parse_job_opts, in_int64}
use mkq.JobOpts.RoundTrip.{as_json, FitsLimit}
use mkq.JobOpts.Producer.{FitsBackoff, parse_job_opts-encode_add_opts}
use mkq.Queue.Options.{AddConfig, AddOption, no_config, set_options, to_proto_opts}
use mkq.Queue.Add.{delay_ms}
use mkq.Worker.Finalise.Attempts.{executions, executions-eq-attempts}

in_int64-pos : (n : ℕ) → n ≤ max_int64 → in_int64 (pos n) ≡ true
in_int64-pos n h = ground arith

module _ (fl : Floats) (parse_json : Bytes → Option Json) (os : List AddOption) (raw : Bytes) where
  abbrev pub config : AddConfig
  config = set_options os no_config

  -- A job is added with options that set a positive number of attempts and whose numbers fit an int64,
  -- and its HASH holds the JSON value of the options that were sent. If every run fails with the same error,
  -- neither unrecoverable nor a DelayedError, and the delays are not negative, the worker runs the job
  -- exactly as often as the producer asked for.
  pub executions-set_options :
      (e : Failure) (delay : ℤ → ℤ) (n f : ℕ)
      → is_empty raw ≡ false
      → eq_bytes raw (codes "{}") ≡ false
      → parse_json raw
        ≡ some (
            as_json
              (encode_add_opts (fl.lt float_zero) (to_proto_opts fl config (delay_ms config))))
      → config.attempts ≡ pos n
      → n ≤ max_int64
      → 0 < n
      → n ≤ f
      → FitsBackoff (to_proto_opts fl config (delay_ms config)).backoff
      → FitsLimit (to_proto_opts fl config (delay_ms config)).remove_on_complete
      → FitsLimit (to_proto_opts fl config (delay_ms config)).remove_on_fail
      → is_unrecoverable e ≡ false
      → as_delayed e ≡ none
      → ((m : ℤ) → pos 0 ≤ℤ delay m)
      → executions f (parse_job_opts fl parse_json raw) e delay (pos 0) ≡ n
  unfolding to_proto_opts
  executions-set_options e delay n f some_raw not_braces stored attempts fits positive enough hb hc
        hf plain_error not_delayed nonneg =
      executions-eq-attempts _ e delay n
        ((parse_job_opts-encode_add_opts fl parse_json (fl.lt float_zero)
            (to_proto_opts fl config (delay_ms config)) raw some_raw not_braces stored
            (rw attempts (in_int64-pos n fits)) hb hc hf).0
          ∙ attempts)
        fits plain_error not_delayed nonneg f positive enough
