-- ===== src/Worker/Dispatch/Closing.antt =====
-- How a dispatch loop ends: under Drain it finishes the job in hand, under Stop it gives it back.
use mkq.Prelude.{
  ℕ, suc, true, false, Option, none, some, Bytes, StringMap, [], ◌∷◌, ◌≡◌, refl, ap, ◌∙◌, ◌||◌, ℤ,
}
use mkq.Redis.{World, History, Result, ok, err, ◌>>=◌}
use mkq.Worker.Finish.{Worker, Prefetched, release, release_prefetched_lock, finish_failed}
use mkq.Worker.Finalise.Defs.{Finalised}
use mkq.Worker.Run.{after_stalled, wind_up, run_with, process_job, run_job}
use mkq.Worker.Dispatch.{Slot, again, exit, is_none, round, take_round, loop, loop_step}
use mkq.Worker.Dispatch.Drain.{
  FetchesOnRequest, BringsNone, SettledNone, finalise-SettledNone, run_move_to_finished-BringsNone,
}

module _ (w : World) (k : Worker) where
  wind_up-none :
      (job_id token rjk : Bytes) (r : Result Finalised) (h : History)
      → SettledNone r
      → (((λ h'. (r, h')) >>= wind_up w k job_id token rjk) h).0 ≡ ok none
  wind_up-none job_id token rjk (ok f) h none_next = ap ok none_next
  wind_up-none job_id token rjk (err e) h impossible = absurd impossible

  after_stalled-none :
      (job_id token : Bytes) (r : Result (Option Prefetched)) (h : History)
      → BringsNone r
      → (after_stalled w k job_id token r h).0 ≡ ok none
  after_stalled-none job_id token (ok none) h b = refl
  after_stalled-none job_id token (ok (some p)) h b = absurd b
  after_stalled-none job_id token (err e) h b = refl

module _ (w : World) (k : Worker) (closed : (h : History) → w.closing h ≡ true)
    (on_request : FetchesOnRequest w) where
  run_with-none :
      (token job_id : Bytes) (job_map : StringMap) (defa : Bytes) (h : History)
      → (run_with w k token job_id job_map defa h).0 ≡ ok none
  unfolding process_job finish_failed
  run_with-none token job_id job_map [] h =
      wind_up-none w k job_id token _ _ _
        (finalise-SettledNone w k closed on_request job_id token job_map _ _)
  run_with-none token job_id job_map (c ∷ s) h =
      after_stalled-none w k job_id token _ _
        (run_move_to_finished-BringsNone w k closed on_request _ _ _ _ _ _ _ _ h)

  run_job-none :
      (token job_id : Bytes) (job_map : StringMap) (h : History)
      → (run_job w k token job_id job_map h).0 ≡ ok none
  unfolding run_job
  run_job-none token job_id job_map h = run_with-none token job_id job_map _ h

module _ (w : World) (k : Worker) (wake_key : Bytes) (s : Slot) (h : History)
    (closing : w.closing h ≡ true) where
  round_ends :
      (is_none s.prefetched || w.jobs_cancelled h) ≡ true
      → round w k wake_key s h ≡ (ok (exit s.prefetched), h)
  unfolding round
  round_ends e = rw (closing, e)

  round_goes_on :
      (is_none s.prefetched || w.jobs_cancelled h) ≡ false
      → round w k wake_key s h ≡ take_round w k wake_key s.idle_wait s.prefetched h
  unfolding round
  round_goes_on e = rw (closing, e)

take_round_held :
    (w : World) (k : Worker) (wake_key : Bytes) (idle : ℤ) (p : Prefetched) (h : History)
    → (run_job w k p.token p.job_id p.job_map h).0 ≡ ok none
    → take_round w k wake_key idle (some p) h ≡ (
      ok (again (record { prefetched = none; idle_wait = idle })),
      (run_job w k p.token p.job_id p.job_map h).1,
    )
unfolding take_round
take_round_held w k wake_key idle p h e = rw e

module _ (w : World) (k : Worker) (wake_key : Bytes)
    (closed : (h : History) → w.closing h ≡ true) where
  -- A closing worker asks for no job: a loop with nothing in hand returns and makes no call.
  pub closing-idle :
      (f : ℕ) (idle : ℤ) (h : History)
      → loop w k wake_key (suc f) (record { prefetched = none; idle_wait = idle }) h ≡ (ok none, h)
  unfolding release_prefetched_lock
  closing-idle f idle h = loop_step w k wake_key f _ h (round_ends w k wake_key _ h (closed h) refl)

  -- Stop: once the worker is closing and the handlers are cancelled, a job in hand is not run; its lock is
  -- given back, and the loop returns with no other call.
  pub stop-releases :
      (f : ℕ) (idle : ℤ) (p : Prefetched) (h : History)
      → w.jobs_cancelled h ≡ true
      → loop w k wake_key (suc f) (record { prefetched = some p; idle_wait = idle }) h
        ≡ (ok none, release w k p.job_id p.token h)
  unfolding release_prefetched_lock
  stop-releases f idle p h cancelled =
      loop_step w k wake_key f _ h (round_ends w k wake_key _ h (closed h) cancelled)

  -- Drain: once the worker is closing, if moveToFinished hands over no job unless it is asked to, and the
  -- handlers are not cancelled, the job in hand is run to its end, nothing is asked for behind it, and the
  -- loop returns holding no lock. Two rounds are enough.
  pub drain-finishes_held :
      FetchesOnRequest w
      → (f : ℕ) (idle : ℤ) (p : Prefetched) (h : History) → w.jobs_cancelled h ≡ false
      → loop w k wake_key (suc (suc f)) (record { prefetched = some p; idle_wait = idle }) h
        ≡ (ok none, (run_job w k p.token p.job_id p.job_map h).1)
  drain-finishes_held on_request f idle p h live =
      loop_step w k wake_key (suc f) _ h (
        round_goes_on w k wake_key _ h (closed h) live
        ∙ take_round_held w k wake_key idle p h
            (run_job-none w k closed on_request p.token p.job_id p.job_map h))
      ∙ closing-idle f idle _
