-- ===== src/Worker/Heartbeat.antt =====
-- worker.go `heartbeat`: the loop that renews a job's lock while its handler runs.
pub mod Lease
use mkq.Prelude.{List, [], ◌∷◌, ◌++◌, Bytes, ℤ, pos, max_ℤ, quot, Bool, true, false, zero}
use mkq.Keys
use mkq.Keys.{slot, stalled}
use mkq.Redis.{
  int, Value, text, number, eval, Call, World, Result, ok, err, History, Signal, ticked, ended,
}
use mkq.Redis.Scripts.{extend_lock}
use mkq.Worker.Config.{second}
use mkq.Worker.Finish.{Worker, lock_ms}

-- Where the loop is behind some signals; `cancelled` has called `cancelJob`.
pub data Beating : Type 0 where
  going stopped cancelled : Beating

module _ (w : World) (k : Worker) where
  abbrev pub tick : ℤ
  tick = max_ℤ (quot k.cfg.lock_duration 2) (pos second)

  abbrev pub beat : Bytes → Bytes → Call
  beat token job_id =
      eval extend_lock (Keys.job_lock k.keys job_id ∷ slot k.keys stalled ∷ [])
        (text token ∷ number (lock_ms w k) ∷ text job_id ∷ [])

  -- An error, or the reply 0: the lock is no longer the worker's.
  abbrev pub lost : Result Value → Bool
  lost (err e) = true
  lost (ok (int (pos zero))) = true
  lost (ok _) = false

  unfoldable pub heartbeat : Bytes → Bytes → List Signal → History → Beating × History
  heartbeat token job_id [] h = (going, h)
  heartbeat token job_id (ended ∷ es) h = (stopped, h)
  heartbeat token job_id (ticked others ∷ es) h =
      let call = beat token job_id in
      elim (lost (w.redis (others ++ h) call)) [
        | true ↦ (cancelled, call ∷ others ++ h)
        | false ↦ heartbeat token job_id es (call ∷ others ++ h)
      ]
