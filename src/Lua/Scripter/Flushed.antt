-- ===== src/Lua/Scripter/Flushed.antt =====
-- internal/lua/loader.go: a script runs once, also when the server has lost it.
use mkq.Prelude.{
  Bool, true, false, List, some, Bytes, codes, eq_bytes_refl, ◌≡◌, refl, Bool-cases, inl, inr,
  if◌then◌else◌,
}
use mkq.Failure.{Failure, redis_error}
use mkq.Redis.{Value, Arg, Result, ok, err}
use mkq.Redis.Scripts.{ScriptName, script_name}
use mkq.Lua.Path.{has_prefix}
use mkq.Lua.Preprocess.{done, preprocess}
use mkq.Lua.Scripter.{
  Server, LoadedScript, Cache, lookup, is_no_script, of_result, source_of, after_eval, run,
}

-- What Redis documents: a script has a digest; EVALSHA of a digest that the server does not hold changes
-- nothing and answers NOSCRIPT, of one that it holds it runs the script; SCRIPT LOAD answers with the
-- digest and holds the script from then on.
pub record Documented (s : Server) : Type 0 where
  pub digest : Bytes → Bytes
  pub holds : s.State → Bytes → Bool
  pub execute : s.State → Bytes → List Bytes → List Arg → Result Value × s.State
  pub loaded : s.State → Bytes → s.State
  pub eval_missing :
      (st : s.State) (sha : Bytes) (keys : List Bytes) (args : List Arg)
      → holds st sha ≡ false
      → s.eval_sha st sha keys args ≡ (err (redis_error (codes "NOSCRIPT No matching script.")), st)
  pub eval_held :
      (st : s.State) (src : Bytes) (keys : List Bytes) (args : List Arg)
      → holds st (digest src) ≡ true
      → s.eval_sha st (digest src) keys args ≡ execute st src keys args
  pub load_answers :
      (st : s.State) (src : Bytes) → s.script_load st src ≡ (ok (digest src), loaded st src)
  pub load_holds : (st : s.State) (src : Bytes) → holds (loaded st src) (digest src) ≡ true

module _ (s : Server) (d : Documented s) (read : Bytes → Result Bytes)
    (error_text : Failure → Bytes) where
  -- The server's state in which the script finally runs.
  abbrev pub ready : s.State → Bytes → s.State
  ready st src = if d.holds st (d.digest src) then st else d.loaded st src

  -- No answer of the script itself reads as NOSCRIPT.
  abbrev pub Unmistaken : Result Value → Type 0
  Unmistaken (ok v) = Unit
  Unmistaken (err e) = is_no_script error_text e ≡ false

  module _ (name : ScriptName) (keys : List Bytes) (args : List Arg) (src : Bytes)
      (source : source_of s read error_text (preprocess read (script_name name)) ≡ done src) where
    -- What the cache holds for the script.
    abbrev pub entry : LoadedScript
    entry = record { source = src; sha = d.digest src }

    -- `run` gives the outcome of one execution, and the cache still knows the script.
    abbrev pub RunsOnce : s.State → Cache → Type 0
    RunsOnce st m =
        let out = d.execute (ready st src) src keys args in
        let result = run s read error_text name keys args (st, m) in
        (result.0 ≡ of_result out.0)
        × (result.1.0 ≡ out.1)
        × (lookup (script_name name) result.1.1 ≡ some entry)

    answered :
        (m : Cache) (r : Result Value × s.State)
        → lookup (script_name name) m ≡ some entry
        → Unmistaken r.0
        → let result = after_eval s read error_text name keys args r m in
          (result.0 ≡ of_result r.0)
          × (result.1.0 ≡ r.1)
          × (lookup (script_name name) result.1.1 ≡ some entry)
    answered m (ok v, st) known unmistaken = (refl, refl, known)
    answered m (err e, st) known unmistaken = rw unmistaken (refl, refl, known)

    run_held :
        (st : s.State) (m : Cache)
        → lookup (script_name name) m ≡ some entry
        → d.holds st (d.digest src) ≡ true
        → Unmistaken (d.execute st src keys args).0
        → RunsOnce st m
    unfolding run
    run_held st m known held unmistaken =
        rw (known, held, d.eval_held st src keys args held) (answered m _ known unmistaken)

    run_flushed :
        (st : s.State) (m : Cache)
        → lookup (script_name name) m ≡ some entry
        → d.holds st (d.digest src) ≡ false
        → RunsOnce st m
    unfolding run has_prefix
    run_flushed st m known flushed =
        rw
          (
            known,
            flushed,
            d.eval_missing st (d.digest src) keys args flushed,
            source,
            d.load_answers st src,
            d.eval_held (d.loaded st src) src keys args (d.load_holds st src),
          )
          (refl, refl, rw (eq_bytes_refl (script_name name)) refl)

    -- If the server does what Redis documents, the cache knows the script by its digest, and no answer of
    -- the script reads as NOSCRIPT: `Run` executes the script exactly once and gives its answer, also
    -- when the server has lost it, in which case it is loaded first. The cache still knows the script
    -- afterwards, so the next `Run` does the same.
    pub run-RunsOnce :
        (st : s.State) (m : Cache)
        → lookup (script_name name) m ≡ some entry
        → Unmistaken (d.execute st src keys args).0
        → RunsOnce st m
    run-RunsOnce st m known unmistaken = elim (Bool-cases (d.holds st (d.digest src))) [
      | inl held ↦ run_held st m known held unmistaken
      | inr flushed ↦ run_flushed st m known flushed
    ]
