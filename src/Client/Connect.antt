-- ===== src/Client/Connect.antt =====
-- mkq.go: `NewClient`, on a Redis server that is a parameter, and `Close`. Logger, metrics and tracer are
-- left out.
use mkq.Prelude.{
  List, [], ◌∷◌, Bytes, codes, is_empty, ◌≡◌, refl, ◌⊎◌, inl, inr, Bool-cases, false, ℤ,
  if◌then◌else◌,
}
use mkq.Failure.{Failure, plain, wrap}
use mkq.Keys.{default_prefix}
use mkq.Redis.{Arg, Result, ok, err}
use mkq.Redis.Scripts.{ScriptName, script_name}
use mkq.Lua.Preprocess.{Outcome, done, failed, panicked, preprocess}
use mkq.Lua.Scripter.{Server, Cache, source_of}
use mkq.Lua.Scripter.Flushed.{Documented, Unmistaken}
use mkq.Lua.Scripter.Preload.{new_scripter}
use mkq.Lua.Scripter.Preload.Flaky.{Faults, Faulty, flaky, new_scripter-flaky}
use mkq.Lua.Scripter.Preload.Session.{Request, session, replay, new_scripter-Serves}

pub record Config : Type 0 where
  pub addrs : List Bytes
  pub key_prefix : Bytes
  pub pool_size : ℤ

pub record Client : Type 0 where
  pub key_prefix : Bytes
  pub configured_pool_size : ℤ
  pub scripts : Cache

-- What becomes of the connection pool, in order.
pub data Pooling : Type 0 where
  pool_opened pool_closed : Pooling

module _ (s : Server) (ping : s.State → Result (Unit {0}) × s.State) (read : Bytes → Result Bytes)
    (error_text : Failure → Bytes) where
  abbrev pub Connecting : Type 0
  Connecting = Outcome Client × (List Pooling × s.State)

  abbrev pub client_of : Config → Cache → Client
  client_of c m = record {
    key_prefix = if is_empty c.key_prefix then default_prefix else c.key_prefix;
    configured_pool_size = c.pool_size;
    scripts = m;
  }

  abbrev pub with_scripts : Config → Outcome Cache × s.State → Connecting
  with_scripts c (done m, st) = (done (client_of c m), (pool_opened ∷ [], st))
  with_scripts c (failed e, st) =
      (failed (wrap (codes "mkq: load scripts") e), (pool_opened ∷ pool_closed ∷ [], st))
  with_scripts c (panicked, st) = (panicked, (pool_opened ∷ [], st))

  abbrev pub pinged : Config → Result (Unit {0}) × s.State → Connecting
  pinged c (err e, st) =
      (failed (wrap (codes "mkq: redis ping") e), (pool_opened ∷ pool_closed ∷ [], st))
  pinged c (ok u, st) = with_scripts c (new_scripter s read error_text st)

  abbrev pub to_addrs : Config → List Bytes → s.State → Connecting
  to_addrs c [] st = (failed (plain (codes "mkq: Config.Redis.Addrs is required")), ([], st))
  to_addrs c (a ∷ as') st = pinged c (ping st)

  unfoldable pub new_client : Config → s.State → Connecting
  new_client c st = to_addrs c c.addrs st

-- `Close`.
unfoldable pub close : List Pooling → List Pooling
close [] = pool_closed ∷ []
close (p ∷ ps) = p ∷ close ps

module _ (s : Server) (d : Documented s) (faults : Faults s)
    (ping : s.State → Result (Unit {0}) × s.State) (read : Bytes → Result Bytes)
    (error_text : Failure → Bytes) (source : ScriptName → Bytes)
    (expands : (n : ScriptName)
      → source_of s read error_text (preprocess read (script_name n)) ≡ done (source n))
    (unmistaken : (st : s.State) (src : Bytes) (keys : List Bytes) (args : List Arg)
      → Unmistaken s d read error_text (d.execute st src keys args).0) where
  abbrev pub Attempt : Type 0
  Attempt = Connecting (flaky s faults) ping read error_text

  -- A client has an open pool, a prefix and scripts that serve the requests; a failure has its reason,
  -- and leaves no pool behind.
  abbrev pub Connects : Config → s.State → List (Request s) → Attempt → Type 0
  Connects c st rs (done client, (pool, st')) =
      ((c.addrs ≡ []) → ⊥)
      × ((ping st).0 ≡ ok tt)
      × (pool ≡ pool_opened ∷ [])
      × (is_empty client.key_prefix ≡ false)
      × (session s read error_text rs st' client.scripts ≡ replay s d read error_text source rs st')
  Connects c st rs (failed e, (pool, st')) =
      ((c.addrs ≡ []) × (pool ≡ []))
      ⊎ ((((f : Failure) × ((ping st).0 ≡ err f)) ⊎ Faulty s faults)
          × (pool ≡ pool_opened ∷ pool_closed ∷ []))
  Connects c st rs (panicked, (pool, st')) = ⊥

  client_of-prefixed :
      (c : Config) (m : Cache)
      → is_empty (client_of (flaky s faults) ping read error_text c m).key_prefix ≡ false
  client_of-prefixed c m = elim (Bool-cases (is_empty c.key_prefix)) [
    | inl e ↦ rw (e) refl
    | inr e ↦ rw (e) e
  ]

  pinged-Connects :
      (c : Config) (st : s.State) (rs : List (Request s)) (p : Result (Unit {0}) × s.State)
      → ((c.addrs ≡ []) → ⊥)
      → (ping st).0 ≡ p.0
      → Connects c st rs (pinged (flaky s faults) ping read error_text c p)
  pinged-Connects c st rs (err e, st') some_addr answer = inr (inl (e, answer), refl)
  pinged-Connects c st rs (ok u, st') some_addr answer =
      elim (new_scripter-flaky s d faults read error_text source expands unmistaken st') [
        | inl fine ↦
            let (m, st'', built, same) =
              new_scripter-Serves s d read error_text source expands unmistaken st' rs in
            rw (fine, built) (some_addr, answer, refl, client_of-prefixed c m, same)
        | inr (bad, e, st'', f) ↦ rw (f) (inr (inr bad, refl))
      ]

  addrs-Connects :
      (c : Config) (st : s.State) (rs : List (Request s)) (l : List Bytes)
      → c.addrs ≡ l
      → Connects c st rs (to_addrs (flaky s faults) ping read error_text c l st)
  addrs-Connects c st rs [] e = inl (e, refl)
  addrs-Connects c st rs (a ∷ l) e = pinged-Connects c st rs (ping st) (λ none_. cc) refl

  -- If every script's includes expand, the server does what Redis documents, except that any SCRIPT LOAD
  -- of `NewClient` may fail, and no answer of a script reads as NOSCRIPT: `NewClient` fails just for want
  -- of an address, without opening a pool, or because the ping or a SCRIPT LOAD failed, and has closed its
  -- pool again; otherwise there is an address, the ping was answered, the client has one open pool and a
  -- prefix that is not empty, and any `Run`s of its scripts on the server, with no further failures of
  -- SCRIPT LOAD, give the answers of one execution each.
  pub new_client-Connects :
      (c : Config) (st : s.State) (rs : List (Request s))
      → Connects c st rs (new_client (flaky s faults) ping read error_text c st)
  unfolding new_client
  new_client-Connects c st rs = addrs-Connects c st rs c.addrs refl
