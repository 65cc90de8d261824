-- ===== src/Worker/Dispatch/Drain.antt =====
-- What a dispatch loop does once the worker is closing.
use mkq.Prelude.{
  zero, suc, Bool, true, List, [], Option, none, some, Bytes, codes, StringMap, ◌≡◌, refl, ap,
  Bool-cases, inl, inr, ℤ, pos, negsuc, get_elem?, if◌then◌else◌,
}
use mkq.Failure.{Failure, as_delayed}
use mkq.Keys.{Target}
use mkq.JobOpts.{RetentionLimit}
use mkq.Redis.{
  World, History, Value, int, Packed, Arg, text, eval, Result, ok, err, wrapped, checked, M,
  encoded,
}
use mkq.Redis.Scripts.{move_to_finished}
use mkq.Worker.Failures.{FailureHistory}
use mkq.Worker.Retry.{should_retry}
use mkq.Worker.Finalise.Defs.{
  Outcome, success, failure, Status, completed, failed, Finalised, finished, handed_back,
  opts_of_job, retry_after, settle_failure, settle, finalise,
}
use mkq.Worker.Finalise.Verdict.{attempts_so_far}
use mkq.Worker.Finish.{
  fetch_atm, finish_failed, finish_completed, Worker, Prefetched, fetch_next_flag,
  interpret_finished, send_finished, run_move_to_finished,
}

-- Without the fetchNext flag moveToFinished answers with a number, never with a job.
abbrev pub FetchesOnRequest : World → Type 0
FetchesOnRequest w =
    (h : History) (keys : List Bytes) (args : List Arg) (v : Value)
    → w.redis h (eval move_to_finished keys args) ≡ ok v
    → get_elem? args 5 ≡ some (text [])
    → (n : ℤ) × (v ≡ int n)

-- A result that brings no next job.
abbrev pub BringsNone : Result (Option Prefetched) → Type 0
BringsNone (ok none) = Unit
BringsNone (ok (some p)) = ⊥
BringsNone (err e) = Unit

module _ (w : World) (k : Worker) (closed : (h : History) → w.closing h ≡ true)
    (on_request : FetchesOnRequest w) where
  interpret_int : (token : Bytes) (n : ℤ) → BringsNone (interpret_finished w k token (int n))
  unfolding interpret_finished
  interpret_int token (pos n) = tt
  interpret_int token (negsuc n) = tt

  answered :
      (c token : Bytes) (r : Result Value)
      → ((v : Value) → r ≡ ok v → (n : ℤ) × (v ≡ int n))
      → BringsNone (checked (wrapped c r) (interpret_finished w k token))
  answered c token (ok v) only = let (n, e) = only v refl in rw e (interpret_int token n)
  answered c token (err e) only = tt

  encoded-BringsNone :
      (r s : Result Bytes) (f : Bytes → Bytes → M (Option Prefetched)) (h : History)
      → ((a b : Bytes) → BringsNone (f a b h).0)
      → BringsNone (encoded r s f h).0
  encoded-BringsNone (ok a) (ok b) f h each = each a b
  encoded-BringsNone (ok a) (err e) f h each = tt
  encoded-BringsNone (err e) s f h each = tt

  send_finished-BringsNone :
      (job_id token : Bytes) (t : Target) (prop value opts fields : Bytes) (h : History)
      → BringsNone (send_finished w k job_id token t prop value opts fields h).0
  unfolding send_finished fetch_next_flag
  send_finished-BringsNone job_id token t prop value opts fields h = answered _ token _ (λ v e.
      on_request h _ _ v e
        (ap (λ (b : Bool). some (text (if b then [] else codes "1"))) (closed h)))

  pub run_move_to_finished-BringsNone :
      (job_id token : Bytes) (attempts : ℤ) (keep : Option RetentionLimit) (t : Target)
      (prop value : Bytes) (extra : List Packed) (h : History)
      → BringsNone (run_move_to_finished w k job_id token attempts keep t prop value extra h).0
  unfolding run_move_to_finished
  run_move_to_finished-BringsNone job_id token attempts keep t prop value extra h =
      encoded-BringsNone _ _ (send_finished w k job_id token t prop value) h
        (λ opts fields. send_finished-BringsNone job_id token t prop value opts fields h)

-- A finalised job that brings no next job.
abbrev pub SettledNone : Result Finalised → Type 0
SettledNone (ok f) = f.prefetched ≡ none
SettledNone (err e) = ⊥

module _ (w : World) (k : Worker) (closed : (h : History) → w.closing h ≡ true)
    (on_request : FetchesOnRequest w) (job_id token : Bytes) (job_map : StringMap) where
  finished-none :
      (s : Status) (r : Result (Option Prefetched))
      → BringsNone r
      → (finished s r).prefetched ≡ none
  finished-none s (ok none) b = refl
  finished-none s (ok (some p)) b = absurd b
  finished-none s (err e) b = refl

  handed_back-none : (s : Status) (r : Result (Unit {0})) → (handed_back s r).prefetched ≡ none
  handed_back-none s (ok u) = refl
  handed_back-none s (err e) = refl

  failed-SettledNone :
      (reason : Bytes) (hist : FailureHistory) (h : History)
      → (finished failed
          (finish_failed w k job_id token
            (opts_of_job w k job_id token job_map)
            reason
            hist
            h).0).prefetched
        ≡ none
  unfolding finish_failed
  failed-SettledNone reason hist h =
      finished-none failed _
        (run_move_to_finished-BringsNone w k closed on_request _ _ _ _ _ _ _ _ h)

  retry_after-SettledNone :
      (e : Failure) (reason : Bytes) (hist : FailureHistory) (d : ℤ) (h : History)
      → SettledNone (retry_after w k job_id token job_map e reason hist d h).0
  unfolding retry_after
  retry_after-SettledNone e reason hist (negsuc n) h = failed-SettledNone reason hist h
  retry_after-SettledNone e reason hist (pos zero) h = handed_back-none _ _
  retry_after-SettledNone e reason hist (pos (suc n)) h = handed_back-none _ _

  settle-SettledNone :
      (e : Failure) (reason : Bytes) (o : Option ℤ) (h : History)
      → SettledNone (settle w k job_id token job_map e reason o h).0
  unfolding settle settle_failure fetch_atm
  settle-SettledNone e reason (some d) h = handed_back-none _ _
  settle-SettledNone e reason none h =
      elim (Bool-cases (
        should_retry (opts_of_job w k job_id token job_map)
          (attempts_so_far w k job_id token job_map h) e)) [
            | inl again ↦ rw again (retry_after-SettledNone e reason _ _ _)
            | inr stop ↦ rw stop (failed-SettledNone reason _ _)
          ]

  pub finalise-SettledNone :
      (out : Outcome) (h : History) → SettledNone (finalise w k job_id token job_map out h).0
  unfolding finalise finish_completed
  finalise-SettledNone (success v) h =
      finished-none completed _
        (run_move_to_finished-BringsNone w k closed on_request _ _ _ _ _ _ _ _ h)
  finalise-SettledNone (failure e reason) h = settle-SettledNone e reason (as_delayed e) h
