-- ===== src/Lua/Scripter/Preload/Flaky.antt =====
-- internal/lua/loader.go: `NewScripter` when a SCRIPT LOAD fails.
use mkq.Prelude.{List, [], ◌∷◌, Option, none, some, Bytes, ◌≡◌, refl, ◌⊎◌, inl, inr, Option-cases}
use mkq.Failure.{Failure}
use mkq.Redis.{Arg, Result, err}
use mkq.Redis.Scripts.{ScriptName, script_name}
use mkq.Lua.Preprocess.{done, failed, preprocess}
use mkq.Lua.Scripter.{Server, Cache, load, source_of}
use mkq.Lua.Scripter.Flushed.{Documented, Unmistaken}
use mkq.Lua.Scripter.Preload.{preloaded, preload, new_scripter}
use mkq.Lua.Scripter.Preload.Session.{load-eq, digested}

-- The calls of SCRIPT LOAD that fail, each with its error and the state that it leaves the server in.
abbrev pub Faults : Server → Type 0
Faults s = s.State → Bytes → Option (Failure × s.State)

abbrev loading :
    (s : Server) → Option (Failure × s.State) → Result Bytes × s.State → Result Bytes × s.State
loading s none r = r
loading s (some (e, st)) r = (err e, st)

-- The server, as a client sees it whose calls of SCRIPT LOAD may fail.
abbrev pub flaky : (s : Server) → Faults s → Server
flaky s faults = record {
  State = s.State;
  eval_sha = s.eval_sha;
  script_load = λ st src. loading s (faults st src) (s.script_load st src);
}

-- Some SCRIPT LOAD fails.
abbrev pub Faulty : (s : Server) → Faults s → Type 0
Faulty s faults =
    (st : s.State) × (src : Bytes) × (x : Failure × s.State) × (faults st src ≡ some x)

module _ (s : Server) (d : Documented s) (faults : Faults s) (read : Bytes → Result Bytes)
    (error_text : Failure → Bytes) (source : ScriptName → Bytes)
    (expands : (n : ScriptName)
      → source_of s read error_text (preprocess read (script_name n)) ≡ done (source n))
    (unmistaken : (st : s.State) (src : Bytes) (keys : List Bytes) (args : List Arg)
      → Unmistaken s d read error_text (d.execute st src keys args).0) where
  load-flaky :
      (n : ScriptName) (st : s.State) (m : Cache)
      → (load (flaky s faults) read error_text n (st, m) ≡ load s read error_text n (st, m))
        ⊎ (Faulty s faults
            × (e : Failure) × (q : s.State × Cache) × (load
                  (flaky s faults)
                  read
                  error_text
                  n
                  (st, m)
                ≡ (failed e, q)))
  unfolding load
  load-flaky n st m = elim (Option-cases (faults st (source n))) [
    | inl fine ↦ inl (rw (expands n, fine) refl)
    | inr (x, e) ↦ rw (expands n, e) (inr ((st, source n, x, e), _, _, refl))
  ]

  -- Preloading goes as on a server without faults, or stops at the first fault.
  preload-flaky :
      (ns : List ScriptName) (st : s.State) (m : Cache)
      → (preload (flaky s faults) read error_text ns (st, m) ≡ preload s read error_text ns (st, m))
        ⊎ (Faulty s faults
            × (e : Failure) × (q : s.State × Cache) × (preload
                  (flaky s faults)
                  read
                  error_text
                  ns
                  (st, m)
                ≡ (failed e, q)))
  unfolding preload
  preload-flaky [] st m = inl refl
  preload-flaky (n ∷ ns) st m = elim (load-flaky n st m) [
    | inl same ↦
        let loaded = load-eq s d read error_text source expands unmistaken n st m in
        rw (same, loaded)
          (preload-flaky ns (d.loaded st (source n))
            ((script_name n, digested s d read error_text source n) ∷ m))
    | inr (bad, e, q, f) ↦ rw (f) (inr (bad, _, q, refl))
  ]

  pub new_scripter-flaky :
      (st : s.State)
      → (new_scripter (flaky s faults) read error_text st ≡ new_scripter s read error_text st)
        ⊎ (Faulty s faults
            × (e : Failure) × (st' : s.State) × (new_scripter (flaky s faults) read error_text st
                ≡ (failed e, st')))
  unfolding new_scripter
  new_scripter-flaky st = elim (preload-flaky preloaded st []) [
    | inl same ↦ inl (rw (same) refl)
    | inr (bad, e, (st', m), f) ↦ inr (bad, e, st', rw (f) refl)
  ]
