-- ===== src/Tests/Scripts.antt =====
-- The scripts' sources and a Redis server that has lost its scripts.
use mkq.Prelude.{
  pos, List, [], ◌∷◌, Bytes, codes, some, none, ltb, length, eq_bytes, eq_bytes_refl, ◌≡◌, refl,
  if◌then◌else◌,
}
use mkq.Failure.{Failure, redis_error}
use mkq.Redis.{nil, Result, ok, err}
use mkq.Redis.Scripts.{ScriptName, drain, pause, script_name}
use mkq.Lua.Path.{join, contains, dir}
use mkq.Lua.Directive.{find_all, match_at}
use mkq.Lua.Preprocess.{done, member, preprocess, resolve_include}
use mkq.Lua.Preprocess.Once.{Good, preprocess-Good}
use mkq.Lua.Scripter.{Server, Cache, source_of}
use mkq.Lua.Scripter.Flushed.{Documented, run-RunsOnce, RunsOnce}
use mkq.Client.Connect.{Config, Connects, new_client, new_client-Connects}
use mkq.Lua.Scripter.Preload.Flaky.{Faults, flaky}
use mkq.Lua.Scripter.Preload.Session.{Request}

-- The entry point names `a` and `b`, and `b` names `a` again.
abbrev sources : Bytes → Result Bytes
sources path =
    if eq_bytes path (codes "scripts/pause-7.lua")
    then ok (codes "--- @include \"includes/a\"\nx\n--- @include \"includes/b\"\n")
    else if eq_bytes path (codes "scripts/includes/b.lua")
    then ok (codes "--- @include \"a\"\ny\n")
    else ok (codes "z\n")

preprocess-Good_example : Good (codes "scripts/pause-7.lua") (record {
  buf = codes "z\nx\ny\n";
  included = codes "scripts/includes/b.lua" ∷ codes "scripts/includes/a.lua" ∷ [];
  files_read =
      codes "scripts/includes/b.lua"
      ∷ codes "scripts/includes/a.lua"
      ∷ codes "scripts/pause-7.lua"
      ∷ [];
})
unfolding preprocess find_all match_at join resolve_include contains dir
preprocess-Good_example = preprocess-Good sources (codes "pause-7")

-- The server knows scripts by their texts.
abbrev server : Server
server = record {
  State = List Bytes;
  eval_sha = λ st sha keys args.
      if member sha st
      then (ok nil, st)
      else (err (redis_error (codes "NOSCRIPT No matching script.")), st);
  script_load = λ st src. (ok src, src ∷ st);
}

abbrev documented : Documented server
documented = record {
  digest = λ src. src;
  holds = λ st sha. member sha st;
  execute = λ st src keys args. (ok nil, st);
  loaded = λ st src. src ∷ st;
  eval_missing = λ st sha keys args h. rw (h) refl;
  eval_held = λ st src keys args h. rw (h) refl;
  load_answers = λ st src. refl;
  load_holds = λ st src. rw (eq_bytes_refl src) refl;
}

abbrev one_line : Bytes → Result Bytes
one_line path = ok (codes "return 1")

abbrev boom : Failure → Bytes
boom e = codes "boom"

one_line_source :
    source_of server one_line boom (preprocess one_line (script_name pause))
    ≡ done (codes "return 1")
unfolding preprocess find_all match_at
one_line_source = refl

abbrev known_pause : Cache
known_pause = (script_name pause, record { source = codes "return 1"; sha = codes "return 1" }) ∷ []

-- The server has been flushed.
run-RunsOnce_example :
    RunsOnce server documented one_line boom pause [] []
      (codes "return 1")
      one_line_source
      []
      known_pause
run-RunsOnce_example =
    run-RunsOnce server documented one_line boom pause [] [] (codes "return 1") one_line_source []
      known_pause refl tt

one_line_sources :
    (n : ScriptName)
    → source_of server one_line boom (preprocess one_line (script_name n)) ≡ done (codes "return 1")
unfolding preprocess find_all match_at
one_line_sources pause = refl
one_line_sources _ = refl

-- The server is flushed before the second run.
abbrev two_runs : List (Request server)
two_runs =
    (record { meddle = λ st. st; name = pause; keys = []; args = [] })
    ∷ (record { meddle = λ _. []; name = drain; keys = []; args = [] })
    ∷ []

abbrev pong : List Bytes → Result (Unit {0}) × List Bytes
pong st = (ok tt, st)

abbrev local_redis : Config
local_redis = record { addrs = codes "localhost:6379" ∷ []; key_prefix = []; pool_size = pos 0 }

-- The server has no memory for scripts any more when it holds thirty of them.
abbrev full : Faults server
full st src =
    if ltb 30 (length st) then some (redis_error (codes "OOM command not allowed"), st) else none

new_client-Connects_example :
    Connects server documented full pong one_line boom
      (λ _. codes "return 1")
      one_line_sources
      (λ st src keys args. tt)
      local_redis
      []
      two_runs
      (new_client (flaky server full) pong one_line boom local_redis [])
new_client-Connects_example =
    new_client-Connects server documented full pong one_line boom (λ _. codes "return 1")
      one_line_sources (λ st src keys args. tt) local_redis [] two_runs
