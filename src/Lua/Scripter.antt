-- ===== src/Lua/Scripter.antt =====
-- internal/lua/loader.go: the cache of loaded scripts and `Run`. The Redis server is a parameter: a state
-- of its own with EVALSHA and SCRIPT LOAD. Concurrent loads of one script, which singleflight folds into
-- one, and the log line are left out.
pub mod Flushed
pub mod Preload
use mkq.Prelude.{
  ℕ, Bool, true, false, ◌||◌, List, [], ◌∷◌, ◌++◌, Option, none, some, Bytes, codes, eq_bytes,
  if◌then◌else◌,
}
use mkq.Failure.{Failure, plain, redis_nil, redis_error, wrap, join}
use mkq.Redis.{Value, Arg, Result, ok, err}
use mkq.Redis.Scripts.{ScriptName, script_name}
use mkq.Lua.Path.{has_prefix, contains}
use mkq.Lua.Preprocess.{Outcome, done, failed, panicked, preprocess}

pub record Server : Type 1 where
  pub State : Type 0
  pub eval_sha : State → Bytes → List Bytes → List Arg → Result Value × State
  pub script_load : State → Bytes → Result Bytes × State

pub record LoadedScript : Type 0 where
  pub source : Bytes
  pub sha : Bytes

-- The map `scripts`, by the scripts' names.
abbrev pub Cache : Type 0
Cache = List (Bytes × LoadedScript)

abbrev pub lookup : Bytes → Cache → Option LoadedScript
lookup name [] = none
lookup name ((n, ls) ∷ m) = let rest = lookup name m in if eq_bytes n name then some ls else rest

abbrev or_else : Option Bytes → Option Bytes → Option Bytes
or_else none y = y
or_else (some x) y = some x

-- `errors.As` for the errors that Redis itself gave, with their texts.
unfoldable pub as_redis_error : Failure → Option Bytes
as_redis_error (redis_error s) = some s
as_redis_error redis_nil = some (codes "redis: nil")
as_redis_error (wrap m e) = as_redis_error e
as_redis_error (join m a b) = or_else (as_redis_error a) (as_redis_error b)
as_redis_error _ = none

module _ (error_text : Failure → Bytes) where
  abbrev by_text : Failure → Option Bytes → Bool
  by_text e (some s) = has_prefix (codes "NOSCRIPT") s
  by_text e none = contains (codes "NOSCRIPT") (error_text e)

  unfoldable pub is_no_script : Failure → Bool
  unfolding as_redis_error
  is_no_script e = by_text e (as_redis_error e)

abbrev pub Step : Server → Type 0 → Type 0
Step s A = s.State × Cache → Outcome A × (s.State × Cache)

abbrev pub of_result : Result Value → Outcome Value
of_result (ok v) = done v
of_result (err e) = failed e

module _ (s : Server) (read : Bytes → Result Bytes) (error_text : Failure → Bytes) where
  abbrev pub stored :
      Bytes → Bytes → Result Bytes → s.State × Cache → Outcome LoadedScript × (s.State × Cache)
  stored name src (err e) (st, m) = (failed (wrap (codes "script load " ++ name) e), (st, m))
  stored name src (ok sha) (st, m) =
      let ls : LoadedScript = record { source = src; sha = sha } in (done ls, (st, (name, ls) ∷ m))

  abbrev pub load_source :
      Bytes → Outcome Bytes → s.State × Cache → Outcome LoadedScript × (s.State × Cache)
  load_source name (failed e) (st, m) = (failed e, (st, m))
  load_source name panicked (st, m) = (panicked, (st, m))
  load_source name (done src) (st, m) =
      let (r, st') = s.script_load st src in stored name src r (st', m)

  abbrev pub source_of : Outcome mkq.Lua.Preprocess.State → Outcome Bytes
  source_of (done st) = done st.buf
  source_of (failed e) = failed e
  source_of panicked = panicked

  unfoldable pub load : ScriptName → Step s LoadedScript
  load name = load_source (script_name name) (source_of (preprocess read (script_name name)))

  abbrev pub eval_loaded : LoadedScript → List Bytes → List Arg → Step s Value
  eval_loaded ls keys args (st, m) =
      let (r, st') = s.eval_sha st ls.sha keys args in (of_result r, (st', m))

  abbrev pub after_load :
      List Bytes
      → List Arg
      → Outcome LoadedScript × (s.State × Cache)
      → Outcome Value × (s.State × Cache)
  after_load keys args (done ls, sm) = eval_loaded ls keys args sm
  after_load keys args (failed e, sm) = (failed (wrap (codes "reload after NOSCRIPT") e), sm)
  after_load keys args (panicked, sm) = (panicked, sm)

  -- One more try, and only behind an error that says that the script is not there.
  abbrev pub after_eval :
      ScriptName
      → List Bytes
      → List Arg
      → Result Value × s.State
      → Cache
      → Outcome Value × (s.State × Cache)
  after_eval name keys args (ok v, st) m = (done v, (st, m))
  after_eval name keys args (err e, st) m =
      if is_no_script error_text e
      then after_load keys args (load name (st, m))
      else (failed e, (st, m))

  abbrev pub with_loaded : ScriptName → List Bytes → List Arg → Option LoadedScript → Step s Value
  with_loaded name keys args none sm = (failed (plain (codes "script not loaded")), sm)
  with_loaded name keys args (some ls) (st, m) =
      after_eval name keys args (s.eval_sha st ls.sha keys args) m

  unfoldable pub run : ScriptName → List Bytes → List Arg → Step s Value
  unfolding load is_no_script
  run name keys args (st, m) = with_loaded name keys args (lookup (script_name name) m) (st, m)
