-- ===== src/Worker/Dispatch/Alive.antt =====
-- worker.go: a dispatch loop outlives every error.
use mkq.Prelude.{ℕ, zero, suc, false, [], ◌∷◌, Option, none, some, Bytes, StringMap, ◌≡◌, refl, ℤ}
use mkq.Redis.{World, History, Result, ok, err, M, ◌>>=◌, checked}
use mkq.Worker.Wait.{Block, no_wait, at_once, timer as nap, marker_pop}
use mkq.Worker.Finish.{Worker, Prefetched}
use mkq.Worker.Finalise.Defs.{Finalised}
use mkq.Worker.Finalise.Reports.{finalise-Reports}
use mkq.Worker.Finalise.Reports.Answers.{Reports}
use mkq.Worker.Finalise.Calls.{Effect}
use mkq.Worker.Run.{
  Tried, processed, nothing, after_stalled, wind_up, run_with, process_job, run_job,
}
use mkq.Worker.Dispatch.{Slot, Next, again, exit, block, after_try, round, take_round, loop, resume}

-- A result that is no error.
abbrev pub Succeeds : {A : Type 0} → Result A → Type 0
Succeeds (ok a) = Unit
Succeeds (err e) = ⊥

-- A round that leads to another.
abbrev pub Continues : Result Next → Type 0
Continues (ok (again s)) = Unit
Continues (ok (exit p)) = ⊥
Continues (err e) = ⊥

module _ (w : World) (k : Worker) where
  wind_up-Succeeds :
      (job_id token rjk : Bytes) (e : Effect) (g : History) (r : Result Finalised) (h : History)
      → Reports w token e g r h
      → Succeeds (((λ h'. (r, h')) >>= wind_up w k job_id token rjk) h).0
  wind_up-Succeeds job_id token rjk e g (ok f) h reports = tt
  wind_up-Succeeds job_id token rjk e g (err x) h impossible = impossible

  after_stalled-Succeeds :
      (job_id token : Bytes) (r : Result (Option Prefetched)) (h : History)
      → Succeeds (after_stalled w k job_id token r h).0
  after_stalled-Succeeds job_id token (ok p) h = tt
  after_stalled-Succeeds job_id token (err e) h = tt

  run_with-Succeeds :
      (token job_id : Bytes) (job_map : StringMap) (defa : Bytes) (h : History)
      → Succeeds (run_with w k token job_id job_map defa h).0
  unfolding process_job
  run_with-Succeeds token job_id job_map [] h =
      wind_up-Succeeds job_id token _ _ _ _ _ (finalise-Reports w k job_id token job_map _ _)
  run_with-Succeeds token job_id job_map (c ∷ s) h = after_stalled-Succeeds job_id token _ _

  run_job-Succeeds :
      (token job_id : Bytes) (job_map : StringMap) (h : History)
      → Succeeds (run_job w k token job_id job_map h).0
  unfolding run_job
  run_job-Succeeds token job_id job_map h = run_with-Succeeds token job_id job_map _ h

module _ (w : World) (k : Worker) (wake_key : Bytes)
    (open_ : (h : History) → w.closing h ≡ false) where
  block-Continues : (s : Slot) (b : Block) (h : History) → Continues (block w k wake_key s b h).0
  unfolding block
  block-Continues s no_wait h = tt
  block-Continues s at_once h = rw open_ tt
  block-Continues s (nap d) h = rw open_ tt
  block-Continues s (marker_pop d) h = rw open_ tt

  after_try-Continues :
      (idle : ℤ) (t : Result Tried) (h : History) → Continues (after_try w k wake_key idle t h).0
  after_try-Continues idle (err e) h = block-Continues _ _ h
  after_try-Continues idle (ok (processed p)) h = tt
  after_try-Continues idle (ok (nothing expire next)) h = block-Continues _ _ h

  held-Continues :
      (r : Result (Option Prefetched)) (idle : ℤ)
      → Succeeds r
      → Continues (checked r (λ p. ok (again (record { prefetched = p; idle_wait = idle }))))
  held-Continues (ok p) idle s = tt
  held-Continues (err e) idle s = s

  take_round-Continues :
      (idle : ℤ) (p : Option Prefetched) (h : History)
      → Continues (take_round w k wake_key idle p h).0
  unfolding take_round
  take_round-Continues idle none h = after_try-Continues idle _ _
  take_round-Continues idle (some p) h =
      held-Continues _ idle (run_job-Succeeds w k p.token p.job_id p.job_map h)

  round-Continues : (s : Slot) (h : History) → Continues (round w k wake_key s h).0
  unfolding round
  round-Continues s h = rw open_ (take_round-Continues s.idle_wait s.prefetched h)

  resumed :
      (go : Slot → M (Option Slot)) (r : Result Next) (h : History)
      → ((s : Slot) (h' : History) → (s' : Slot) × ((go s h').0 ≡ ok (some s')))
      → Continues r
      → (s' : Slot) × ((resume w k wake_key go r h).0 ≡ ok (some s'))
  resumed go (ok (again s)) h stays c = stays s h
  resumed go (ok (exit p)) h stays c = absurd c
  resumed go (err e) h stays c = absurd c

  -- While the worker is open a dispatch loop never returns: after any number of rounds it stands before
  -- the next one, whatever Redis, the encoder, the replies and the handlers gave it.
  pub loop-stays :
      (f : ℕ) (s : Slot) (h : History) → (s' : Slot) × ((loop w k wake_key f s h).0 ≡ ok (some s'))
  unfolding loop
  loop-stays zero s h = (s, refl)
  loop-stays (suc f) s h = resumed _ _ _ (loop-stays f) (round-Continues s h)
