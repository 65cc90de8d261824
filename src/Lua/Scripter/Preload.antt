-- ===== src/Lua/Scripter/Preload.antt =====
-- internal/lua/loader.go: `NewScripter`, which loads every script before the first `Run`.
pub mod Session
pub mod Flaky
use mkq.Prelude.{List, [], ◌∷◌, ◌++◌, Bytes, codes}
use mkq.Failure.{Failure, wrap}
use mkq.Redis.{Result}
use mkq.Redis.Scripts.{
  ScriptName, script_name, add_standard_job, add_delayed_job, add_prioritized_job, move_to_active,
  move_to_finished, extend_lock, release_lock, retry_job, move_to_delayed,
  move_stalled_jobs_to_wait, add_job_scheduler, update_job_scheduler, update_progress, update_data,
  add_log, get_counts, get_ranges, get_metrics, remove_job, drain, promote, reprocess_job, pause,
}
use mkq.Lua.Preprocess.{Outcome, done, failed, panicked}
use mkq.Lua.Scripter.{Server, LoadedScript, Cache, Step, load}

-- The scripts in the order in which they are loaded.
abbrev pub preloaded : List ScriptName
preloaded =
    add_standard_job ∷ add_delayed_job ∷ add_prioritized_job ∷ move_to_active ∷ move_to_finished
    ∷ extend_lock ∷ release_lock ∷ retry_job ∷ move_to_delayed ∷ move_stalled_jobs_to_wait
    ∷ add_job_scheduler ∷ update_job_scheduler ∷ update_progress ∷ update_data ∷ add_log
    ∷ get_counts ∷ get_ranges ∷ get_metrics ∷ remove_job ∷ drain ∷ promote ∷ reprocess_job ∷ pause
    ∷ []

module _ (s : Server) (read : Bytes → Result Bytes) (error_text : Failure → Bytes) where
  abbrev pub after_one :
      ScriptName
      → Step s (Unit {0})
      → Outcome LoadedScript × (s.State × Cache)
      → Outcome (Unit {0}) × (s.State × Cache)
  after_one name go (done ls, sm) = go sm
  after_one name go (failed e, sm) = (failed (wrap (codes "preload " ++ script_name name) e), sm)
  after_one name go (panicked, sm) = (panicked, sm)

  -- The loop over the scripts, which stops at the first that cannot be loaded.
  unfoldable pub preload : List ScriptName → Step s (Unit {0})
  preload [] sm = (done tt, sm)
  preload (name ∷ names) sm = after_one name (preload names) (load s read error_text name sm)

  -- A scripter is its cache; a failure gives none.
  abbrev pub built : Outcome (Unit {0}) × (s.State × Cache) → Outcome Cache × s.State
  built (done _, (st, m)) = (done m, st)
  built (failed e, (st, m)) = (failed e, st)
  built (panicked, (st, m)) = (panicked, st)

  unfoldable pub new_scripter : s.State → Outcome Cache × s.State
  unfolding preload
  new_scripter st = built (preload preloaded (st, []))
