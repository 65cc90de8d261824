-- ===== src/Inspector/Admin.antt =====
-- inspector_admin.go: removing, promoting and retrying a job, draining the queue.
pub mod Codes
use mkq.Prelude.{
  ℕ, zero, suc, Bool, true, false, List, [], ◌∷◌, Bytes, codes, ℤ, pos, negsuc, ◌==◌, eq_bytes,
  if◌then◌else◌,
}
use mkq.Failure.{
  Failure, plain, coded, sentinel, job_active, job_is_scheduler, job_not_in_delayed, job_not_found,
  job_not_in_expected_state, is_redis_nil, wrap,
}
use mkq.Keys
use mkq.Keys.{Builder}
use mkq.Redis.{
  Value, int, Arg, text, Call, eval, World, M, Result, ok, err, ask, wrapped, checked, and_then,
  with_context,
}
use mkq.Redis.Scripts.{remove_job as remove_job_script, drain, promote, reprocess_job}

abbrev pub empty_id : Failure
empty_id = plain (codes "mkq: jobID must be non-empty")

-- The type switch `res.(int64)` of an operation, and what it makes of the code.
abbrev pub by_code : Bytes → (ℤ → Result (Unit {0})) → Value → Result (Unit {0})
by_code name f (int n) = f n
by_code name f _ = err (plain name)

abbrev pub remove_code : ℤ → Result (Unit {0})
remove_code (pos n) =
    if n == 1
    then ok tt
    else if n == 0
    then err (sentinel job_active)
    else err (coded (codes "mkq: removeJob returned error code") (pos n))
remove_code (negsuc n) =
    if n == 7
    then err (sentinel job_is_scheduler)
    else err (coded (codes "mkq: removeJob returned error code") (negsuc n))

abbrev pub promote_code : ℤ → Result (Unit {0})
promote_code (pos n) =
    if n == 0 then ok tt else err (coded (codes "mkq: promote returned error code") (pos n))
promote_code (negsuc n) =
    if n == 2
    then err (sentinel job_not_in_delayed)
    else err (coded (codes "mkq: promote returned error code") (negsuc n))

abbrev pub reprocess_code : ℤ → Result (Unit {0})
reprocess_code (pos n) =
    if n == 1 then ok tt else err (coded (codes "mkq: reprocessJob returned error code") (pos n))
reprocess_code (negsuc n) =
    if n == 0
    then err (sentinel job_not_found)
    else if n == 2
    then err (sentinel job_not_in_expected_state)
    else err (coded (codes "mkq: reprocessJob returned error code") (negsuc n))

pub record RetryConfig : Type 0 where
  pub from_state : Bytes
  pub reset_atm : Bool
  pub reset_ats : Bool

pub data RetryOption : Type 0 where
  with_retry_from_state : Bytes → RetryOption
  with_reset_attempts : Bool → RetryOption

abbrev pub default_retry : RetryConfig
default_retry = record { from_state = codes "failed"; reset_atm = true; reset_ats = true }

unfoldable pub set_retry : List RetryOption → RetryConfig → RetryConfig
set_retry [] c = c
set_retry (with_retry_from_state s ∷ os) c = set_retry os (record c { from_state = s })
set_retry (with_reset_attempts b ∷ os) c = set_retry os (record c { reset_atm = b; reset_ats = b })

abbrev pub flag : Bool → Bytes
flag true = codes "1"
flag false = codes "0"

module _ (w : World) (b : Builder) where
  -- A call whose reply is an error code.
  abbrev pub coded_call : Bytes → (ℤ → Result (Unit {0})) → Call → M (Unit {0})
  coded_call name f c = and_then (with_context name (ask w c)) (by_code name f)

  abbrev pub remove_call : Bytes → Call
  remove_call job_id =
      eval remove_job_script (Keys.job b job_id ∷ Keys.slot b Keys.repeat ∷ [])
        (text job_id ∷ text (codes "0") ∷ text (Keys.base b) ∷ [])

  unfoldable pub remove_job : Bytes → M (Unit {0})
  remove_job [] h = (err empty_id, h)
  remove_job (c ∷ s) h = coded_call (codes "mkq: removeJob") remove_code (remove_call (c ∷ s)) h

  abbrev pub promote_call : Bytes → Call
  promote_call job_id =
      eval promote
        (Keys.slot b Keys.delayed
          ∷ Keys.slot b Keys.wait
          ∷ Keys.slot b Keys.paused
          ∷ Keys.slot b Keys.meta
          ∷ Keys.slot b Keys.prioritized
          ∷ Keys.slot b Keys.active
          ∷ Keys.slot b Keys.priority_counter
          ∷ Keys.slot b Keys.events
          ∷ Keys.slot b Keys.marker
          ∷ [])
        (text (Keys.base b) ∷ text job_id ∷ [])

  unfoldable pub promote_job : Bytes → M (Unit {0})
  promote_job [] h = (err empty_id, h)
  promote_job (c ∷ s) h = coded_call (codes "mkq: promote") promote_code (promote_call (c ∷ s)) h

  abbrev pub reprocess_call : Bytes → RetryConfig → Keys.Slot → Bytes → Bytes → Call
  reprocess_call job_id c state prop_val prev_state =
      eval reprocess_job
        (Keys.job b job_id
          ∷ Keys.slot b Keys.events
          ∷ Keys.slot b state
          ∷ Keys.slot b Keys.wait
          ∷ Keys.slot b Keys.meta
          ∷ Keys.slot b Keys.active
          ∷ Keys.slot b Keys.marker
          ∷ Keys.slot b Keys.prioritized
          ∷ Keys.slot b Keys.priority_counter
          ∷ [])
        (text job_id
          ∷ text (codes "LPUSH")
          ∷ text prop_val
          ∷ text prev_state
          ∷ text (flag c.reset_atm)
          ∷ text (flag c.reset_ats)
          ∷ [])

  -- Only a failed or a completed job can be retried.
  unfoldable pub retry_with : Bytes → RetryConfig → M (Unit {0})
  retry_with job_id c h =
      if eq_bytes c.from_state (codes "failed")
      then coded_call (codes "mkq: reprocessJob") reprocess_code
          (reprocess_call job_id c Keys.failed (codes "failedReason") (codes "failed")) h
      else if eq_bytes c.from_state (codes "completed")
      then coded_call (codes "mkq: reprocessJob") reprocess_code
          (reprocess_call job_id c Keys.completed (codes "returnvalue") (codes "completed")) h
      else (err (plain (codes "mkq: RetryJob source state must be failed or completed")), h)

  unfoldable pub retry_job : Bytes → List RetryOption → M (Unit {0})
  unfolding retry_with set_retry
  retry_job [] os h = (err empty_id, h)
  retry_job (c ∷ s) os h = retry_with (c ∷ s) (set_retry os default_retry) h

  abbrev drained : Result Value → Result (Unit {0})
  drained (ok v) = ok tt
  drained (err e) = if is_redis_nil e then ok tt else err (wrap (codes "mkq: drain") e)

  unfoldable pub drain_pending : Bool → M (Unit {0})
  drain_pending include_delayed h =
      let c =
        eval drain
          (Keys.slot b Keys.wait
            ∷ Keys.slot b Keys.paused
            ∷ Keys.slot b Keys.delayed
            ∷ Keys.slot b Keys.prioritized
            ∷ Keys.slot b Keys.repeat
            ∷ [])
          (text (Keys.base b) ∷ text (flag include_delayed) ∷ []) in
      (drained (w.redis h c), c ∷ h)
