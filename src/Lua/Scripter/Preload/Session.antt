-- ===== src/Lua/Scripter/Preload/Session.antt =====
-- internal/lua/loader.go: `NewScripter` and every `Run` behind it.
use mkq.Prelude.{
  ℕ, zero, suc, List, [], ◌∷◌, some, Bytes, eq_bytes, eq_bytes_refl, eq_bytes_sound, get_elem?, ◌≡◌,
  refl, sym, ap, ◌∙◌, ◌⊎◌, inl, inr, Bool-cases,
}
use mkq.Failure.{Failure}
use mkq.Redis.{Value, Arg, Result, ok, err}
use mkq.Redis.Scripts.{
  ScriptName, script_name, add_standard_job, add_delayed_job, add_prioritized_job, move_to_active,
  move_to_finished, extend_lock, release_lock, retry_job, move_to_delayed,
  move_stalled_jobs_to_wait, add_job_scheduler, update_job_scheduler, update_progress, update_data,
  add_log, get_counts, get_ranges, get_metrics, remove_job, drain, promote, reprocess_job, pause,
}
use mkq.Lua.Path.{has_prefix}
use mkq.Lua.Preprocess.{Outcome, done, preprocess}
use mkq.Lua.Scripter.{
  Server, LoadedScript, Cache, lookup, load, of_result, source_of, after_eval, run,
}
use mkq.Lua.Scripter.Flushed.{Documented, Unmistaken, ready, run-RunsOnce}
use mkq.Lua.Scripter.Preload.{preloaded, preload, new_scripter}

listed : (n : ScriptName) → (k : ℕ) × (get_elem? preloaded k ≡ some n)
listed add_standard_job = (0, refl)
listed add_delayed_job = (1, refl)
listed add_prioritized_job = (2, refl)
listed move_to_active = (3, refl)
listed move_to_finished = (4, refl)
listed extend_lock = (5, refl)
listed release_lock = (6, refl)
listed retry_job = (7, refl)
listed move_to_delayed = (8, refl)
listed move_stalled_jobs_to_wait = (9, refl)
listed add_job_scheduler = (10, refl)
listed update_job_scheduler = (11, refl)
listed update_progress = (12, refl)
listed update_data = (13, refl)
listed add_log = (14, refl)
listed get_counts = (15, refl)
listed get_ranges = (16, refl)
listed get_metrics = (17, refl)
listed remove_job = (18, refl)
listed drain = (19, refl)
listed promote = (20, refl)
listed reprocess_job = (21, refl)
listed pause = (22, refl)

-- A `Run`, and what others do to the server before it, such as a flush.
pub record Request (s : Server) : Type 0 where
  pub meddle : s.State → s.State
  pub name : ScriptName
  pub keys : List Bytes
  pub args : List Arg

module _ (s : Server) (read : Bytes → Result Bytes) (error_text : Failure → Bytes) where
  -- The answers of one `Run` after another.
  unfoldable pub session : List (Request s) → s.State → Cache → List (Outcome Value)
  session [] st m = []
  session (r ∷ rs) st m =
      let result = run s read error_text r.name r.keys r.args (r.meddle st, m) in
      result.0 ∷ session rs result.1.0 result.1.1

module _ (s : Server) (d : Documented s) (read : Bytes → Result Bytes)
    (error_text : Failure → Bytes) (source : ScriptName → Bytes) where
  -- The same requests, each of which executes its script once on a server that holds it.
  unfoldable pub replay : List (Request s) → s.State → List (Outcome Value)
  replay [] st = []
  replay (r ∷ rs) st =
      let src = source r.name in
      let out = d.execute (ready s d read error_text (r.meddle st) src) src r.keys r.args in
      of_result out.0 ∷ replay rs out.1

  abbrev pub digested : ScriptName → LoadedScript
  digested n = record { source = source n; sha = d.digest (source n) }

  abbrev Known : ScriptName → Cache → Type 0
  Known n m = lookup (script_name n) m ≡ some (digested n)

  -- The server and the cache behind loads of a list of scripts.
  abbrev server_after : List ScriptName → s.State → s.State
  server_after [] st = st
  server_after (n ∷ ns) st = server_after ns (d.loaded st (source n))

  abbrev cache_after : List ScriptName → Cache → Cache
  cache_after [] m = m
  cache_after (n ∷ ns) m = cache_after ns ((script_name n, digested n) ∷ m)

  module _
      (expands : (n : ScriptName)
        → source_of s read error_text (preprocess read (script_name n)) ≡ done (source n))
      (unmistaken : (st : s.State) (src : Bytes) (keys : List Bytes) (args : List Arg)
        → Unmistaken s d read error_text (d.execute st src keys args).0) where
    pub load-eq :
        (n : ScriptName) (st : s.State) (m : Cache)
        → load s read error_text n (st, m)
          ≡ (done (digested n), (d.loaded st (source n), (script_name n, digested n) ∷ m))
    unfolding load
    load-eq n st m = rw (expands n, d.load_answers st (source n)) refl

    preload-eq :
        (ns : List ScriptName) (st : s.State) (m : Cache)
        → preload s read error_text ns (st, m) ≡ (done tt, (server_after ns st, cache_after ns m))
    unfolding preload
    preload-eq [] st m = refl
    preload-eq (n ∷ ns) st m =
        rw (load-eq n st m)
          (preload-eq ns (d.loaded st (source n)) ((script_name n, digested n) ∷ m))

    -- Two names of one file are one script.
    same_source : (n n' : ScriptName) → script_name n ≡ script_name n' → source n ≡ source n'
    same_source n n' e =
        let p : source_of s read error_text (preprocess read (script_name n)) ≡ done (source n') =
          rw e (expands n') in
        let q : done (source n) ≡ done (source n') = sym (expands n) ∙ p in cc q

    Known-cons :
        (n n' : ScriptName) (m : Cache) → Known n m → Known n ((script_name n', digested n') ∷ m)
    Known-cons n n' m known = elim (Bool-cases (eq_bytes (script_name n') (script_name n))) [
      | inl e ↦ rw (e) (
          ap (λ src. some (record { source = src; sha = d.digest src }))
            (same_source n' n (eq_bytes_sound _ _ e)))
      | inr e ↦ rw (e) known
    ]

    Known-cache_after :
        (ns : List ScriptName) (n : ScriptName) (m : Cache) → Known n m → Known n (cache_after ns m)
    Known-cache_after [] n m known = known
    Known-cache_after (n' ∷ ns) n m known =
        Known-cache_after ns n ((script_name n', digested n') ∷ m) (Known-cons n n' m known)

    Known-listed :
        (ns : List ScriptName) (n : ScriptName) (k : ℕ) (m : Cache)
        → get_elem? ns k ≡ some n
        → Known n (cache_after ns m)
    Known-listed [] n k m at = cc
    Known-listed (n' ∷ ns) n zero m at =
        let e : n' ≡ n = cc at in
        Known-cache_after ns n ((script_name n', digested n') ∷ m)
          (rw (e, eq_bytes_refl (script_name n)) refl)
    Known-listed (n' ∷ ns) n (suc k) m at =
        Known-listed ns n k ((script_name n', digested n') ∷ m) at

    -- What a `Run` does to the cache.
    answered_cache :
        (n : ScriptName) (keys : List Bytes) (args : List Arg) (m : Cache)
        (r : Result Value × s.State)
        → Unmistaken s d read error_text r.0
        → (after_eval s read error_text n keys args r m).1.1 ≡ m
    answered_cache n keys args m (ok v, st) u = refl
    answered_cache n keys args m (err e, st) u = rw u refl

    run_cache :
        (n : ScriptName) (keys : List Bytes) (args : List Arg) (st : s.State) (m : Cache)
        → Known n m
        → let m' = (run s read error_text n keys args (st, m)).1.1 in
          (m' ≡ m) ⊎ (m' ≡ (script_name n, digested n) ∷ m)
    unfolding run has_prefix
    run_cache n keys args st m known = elim (Bool-cases (d.holds st (d.digest (source n)))) [
      | inl held ↦ inl (
          rw (known, d.eval_held st (source n) keys args held)
            (answered_cache n keys args m _ (unmistaken st (source n) keys args)))
      | inr flushed ↦ inr (
          rw (known, d.eval_missing st (d.digest (source n)) keys args flushed, load-eq n st m)
            refl)
    ]

    run-Known :
        (n n' : ScriptName) (keys : List Bytes) (args : List Arg) (st : s.State) (m : Cache)
        → Known n m
        → Known n' m
        → Known n' (run s read error_text n keys args (st, m)).1.1
    run-Known n n' keys args st m known known' = elim (run_cache n keys args st m known) [
      | inl e ↦ rw (e) known'
      | inr e ↦ rw (e) (Known-cons n' n m known')
    ]

    session-eq-replay :
        (rs : List (Request s)) (st : s.State) (m : Cache)
        → ((n : ScriptName) → Known n m)
        → session s read error_text rs st m ≡ replay rs st
    unfolding session replay
    session-eq-replay [] st m known = refl
    session-eq-replay (r ∷ rs) st m known =
        let once =
          run-RunsOnce s d read error_text r.name r.keys r.args (source r.name) (expands r.name)
            (r.meddle st) m (known r.name)
            (unmistaken (r.meddle st) (source r.name) r.keys r.args) in
        let ih =
          session-eq-replay rs (run s read error_text r.name r.keys r.args (r.meddle st, m)).1.0
            (run s read error_text r.name r.keys r.args (r.meddle st, m)).1.1
            (λ n. run-Known r.name n r.keys r.args (r.meddle st) m (known r.name) (known n)) in
        rw (ih, once.0, once.1) refl

    -- If every script's includes expand, the server does what Redis documents and no answer of a script
    -- reads as NOSCRIPT, then `NewScripter` succeeds, and any `Run`s behind it, one after another, whatever
    -- others do to the server's state before each of them (such as a flush), give the answers of one
    -- execution each on a server that holds the script. No `Run` finds its script missing.
    pub new_scripter-Serves :
        (st : s.State) (rs : List (Request s))
        → (m : Cache) × (st' : s.State) × (new_scripter s read error_text st ≡ (done m, st'))
          × (session s read error_text rs st' m ≡ replay rs st')
    unfolding new_scripter
    new_scripter-Serves st rs = (
      cache_after preloaded [],
      server_after preloaded st,
      rw (preload-eq preloaded st []) refl,
      session-eq-replay rs (server_after preloaded st) (cache_after preloaded [])
          (λ n. let (k, at) = listed n in Known-listed preloaded n k [] at),
    )
