-- ===== src/Worker/Stalled.antt =====
-- worker.go: `runStalledCheck` and `stalledLoop`, the scan for jobs whose worker has lost their lock.
-- Its log line is left out. Where both cases of the loop's `select` are ready, the context goes first.
pub mod Scans
use mkq.Prelude.{ℕ, zero, suc, true, false, [], ◌∷◌, codes, ℤ, pos, if◌then◌else◌}
use mkq.Failure.{is_canceled, wrap}
use mkq.Keys
use mkq.Redis.{
  World, Call, eval, timer, text, number, Value, Result, ok, err, M, Effect, clock, ◌>>=◌, ask,
  attempt,
}
use mkq.Redis.Scripts.{move_stalled_jobs_to_wait}
use mkq.Worker.Wait.{stalled_check_ttl}
use mkq.Worker.Finish.{Worker}

module _ (w : World) (k : Worker) where
  abbrev pub scan_call : ℤ → Call
  scan_call now = eval move_stalled_jobs_to_wait (Keys.move_stalled_keys k.keys) (
      number k.cfg.max_stalled_count
      ∷ text (Keys.base k.keys)
      ∷ number now
      ∷ number (stalled_check_ttl k.cfg.stalled_interval)
      ∷ [])

  -- A cancelled scan is no error.
  abbrev scanned : Result Value → Result (Unit {0})
  scanned (ok v) = ok tt
  scanned (err e) = if is_canceled e then ok tt else err (wrap (codes "moveStalledJobsToWait") e)

  unfoldable pub run_stalled_check : M (Unit {0})
  run_stalled_check = do now ← clock w; r ← attempt (ask w (scan_call now)); (λ h. (scanned r, h))

  -- `d` is what the timer is set to. A scan's error is logged, and the loop goes on. The rounds are
  -- counted by fuel, since the loop runs until the worker closes. When the timer fires as the worker closes,
  -- the closing goes first; the select may take either.
  unfoldable pub stalled_loop : ℕ → ℤ → Effect
  unfolding run_stalled_check
  stalled_loop zero d h = h
  stalled_loop (suc f) d h =
      let h' = timer d ∷ h in
      let rest = stalled_loop f k.cfg.stalled_interval (run_stalled_check h').1 in
      if w.closing h' then h' else rest
