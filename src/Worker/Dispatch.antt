-- ===== src/Worker/Dispatch.antt =====
-- worker.go `dispatchLoop`: one slot of the goroutine pool. A round either ends the loop or leaves the
-- state of the next one; the rounds are counted by fuel, since the loop runs until the worker closes.
pub mod Drain
pub mod Closing
pub mod Alive
use mkq.Prelude.{
  ◌≡◌, ℕ, zero, suc, Bool, true, false, ◌||◌, Option, none, some, Bytes, List, [], ◌∷◌, ℤ, pos,
  ◌-ℤ◌, ◌*ℤ◌, leb_ℤ, ltb_ℤ, if◌then◌else◌, ◌++◌, codes,
}
use mkq.Keys
use mkq.Redis.{
  World, History, Call, bzpopmin, timer, M, Result, ok, err, ◌>>=◌, ◌>>◌, pure, attempt, and_then,
}
use mkq.Worker.Config.{millisecond}
use mkq.Worker.Wait.{Block, no_wait, at_once, timer as nap, marker_pop, sleep, idle_branch}
use mkq.Worker.Finish.{Worker, Prefetched, release_prefetched_lock}
use mkq.Worker.Run.{Tried, processed, nothing, run_job, try_once}

pub record Slot : Type 0 where
  pub prefetched : Option Prefetched
  pub idle_wait : ℤ

pub data Next : Type 0 where
  again : Slot → Next
  exit : Option Prefetched → Next

abbrev pub is_none : Option Prefetched → Bool
is_none none = true
is_none (some p) = false

module _ (w : World) (k : Worker) (wake_key : Bytes) where
  -- A wait, and whether the worker still runs behind it; `slot` is the state of the next round.
  unfoldable pub block : Slot → Block → M Next
  block slot no_wait h = (ok (again slot), h)
  block slot at_once h = (ok (if w.closing h then exit none else again slot), h)
  block slot (nap d) h =
      let h' = timer d ∷ h in (ok (if w.closing h' then exit none else again slot), h')
  block slot (marker_pop d) h =
      let h' = bzpopmin (Keys.slot k.keys Keys.marker ∷ wake_key ∷ []) d ∷ h in
      (ok (if w.closing h' then exit none else again slot), h')

  abbrev pub idle_block : Block × ℤ → M Next
  idle_block (b, idle) = block (record { prefetched = none; idle_wait = idle }) b

  -- The reply gives the next delayed job's time in ms.
  abbrev pub after_nothing : ℤ → ℤ → ℤ → M Next
  after_nothing expire next idle h =
      idle_block
        (idle_branch expire next (next *ℤ pos millisecond -ℤ w.now h) idle k.cfg.idle_poll_interval)
        h

  abbrev pub after_try : ℤ → Result Tried → M Next
  after_try idle (err e) h =
      block (record { prefetched = none; idle_wait = idle }) (sleep k.cfg.idle_poll_interval) h
  after_try idle (ok (processed p)) h =
      (ok (again (record { prefetched = p; idle_wait = k.cfg.idle_poll_interval })), h)
  after_try idle (ok (nothing expire next)) h = after_nothing expire next idle h

  -- A job in hand is run before any other is asked for.
  unfoldable pub take_round : ℤ → Option Prefetched → M Next
  unfolding block
  take_round idle (some p) =
      and_then (run_job w k p.token p.job_id p.job_map)
        (λ p'. ok (again (record { prefetched = p'; idle_wait = idle })))
  take_round idle none = do t ← attempt (try_once w k); after_try idle t

  -- The closing worker still runs the job in hand, unless the jobs are cancelled too.
  unfoldable pub round : Slot → M Next
  unfolding take_round
  round s h =
      if w.closing h
      then (if is_none s.prefetched || w.jobs_cancelled h
          then (ok (exit s.prefetched), h)
          else take_round s.idle_wait s.prefetched h)
      else take_round s.idle_wait s.prefetched h

  abbrev pub leave : Option Prefetched → M (Option Slot)
  leave p h = (ok none, release_prefetched_lock w k p h)

  abbrev pub resume : (Slot → M (Option Slot)) → Result Next → M (Option Slot)
  resume go (ok (again s)) h = go s h
  resume go (ok (exit p)) h = leave p h
  resume go (err e) h = (err e, h)

  -- What the loop has come to when the fuel is gone: the slot it is in, or none once it has returned.
  unfoldable pub loop : ℕ → Slot → M (Option Slot)
  loop zero s h = (ok (some s), h)
  loop (suc f) s h = let (r, h') = round s h in resume (λ s' h''. loop f s' h'') r h'

  pub loop_step :
      (f : ℕ) (s : Slot) (h : History) {r : Result Next} {h' : History}
      → round s h ≡ (r, h')
      → loop (suc f) s h ≡ resume (λ s' h''. loop f s' h'') r h'
  unfolding loop
  loop_step f s h e = rw e
