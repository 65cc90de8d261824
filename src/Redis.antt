-- ===== src/Redis.antt =====
-- What the program exchanges with go-redis, the msgpack encoder, the clock and the cron library. None
-- of these is part of the repository's Go code, so a `World` is a parameter: how it answers may depend
-- on every call made so far, the newest first.
pub mod Scripts
use mkq.Prelude.{ℕ, Bool, List, [], ◌∷◌, Option, Bytes, StringMap, ℤ, floor_div}
use mkq.Failure.{Failure, wrap}
use mkq.Redis.Scripts.{ScriptName}
use mkq.Backoff.{Floats}
use mkq.Json.{Json}

-- A Go value of type `any`, as go-redis returns it. A text is a string; the []byte that parseAddResult
-- and the decoding of events take like a string is one with it.
mutual
  pub data Value : Type 0 where
    nil : Value
    str : Bytes → Value
    int : ℤ → Value
    float : ℕ → Value
    other : Value
    arr : Values → Value

  pub data Values : Type 0 where
    end : Values
    cons : Value → Values → Values

abbrev pub elements : Values → List Value
elements end = []
elements (cons v vs) = v ∷ elements vs

abbrev pub values : List Value → Values
values [] = end
values (v ∷ vs) = cons v (values vs)

-- An ARGV entry.
pub data Arg : Type 0 where
  text : Bytes → Arg
  number : ℤ → Arg

-- What is handed to the msgpack encoder; a map is written as the list of its entries.
mutual
  pub data Packed : Type 0 where
    pack_nil : Packed
    pack_str : Bytes → Packed
    pack_int : ℤ → Packed
    pack_float : ℕ → Packed
    pack_bool : Bool → Packed
    pack_map : Entries → Packed
    pack_list : Items → Packed

  pub data Entries : Type 0 where
    no_entry : Entries
    entry : Bytes → Packed → Entries → Entries

  pub data Items : Type 0 where
    no_item : Items
    item : Packed → Items → Items

-- What the user's handler does: it returns a value (as its JSON), returns an error, or panics with a
-- text (the second text is the stack).
pub data Handled : Type 0 where
  returned : Bytes → Handled
  failed_with : Failure → Handled
  panicked : Bytes → Bytes → Handled

-- A command sent to Redis: a script with its KEYS and ARGV, or a plain command. `timer` is the block on
-- a timer, which is recorded too, since the world may change meanwhile.
pub data Call : Type 0 where
  eval : ScriptName → List Bytes → List Arg → Call
  get_key : Bytes → Call
  hget : Bytes → Bytes → Call
  hmget : Bytes → List Bytes → Call
  hexists : Bytes → Bytes → Call
  hgetall : Bytes → Call
  llen : Bytes → Call
  bzpopmin : List Bytes → ℤ → Call
  timer : ℤ → Call
  lrange : Bytes → ℤ → ℤ → Call
  del : Bytes → Call
  zrem : Bytes → Bytes → Call
  hsetnx : Bytes → Bytes → Bytes → Call
  sadd : Bytes → Bytes → Call
  zadd : Bytes → List Bytes → Call
  smembers : Bytes → Call
  scan : ℤ → Bytes → ℤ → Call
  xread : Bytes → Bytes → ℤ → Call

pub data Result {ℓ} (A : Type ℓ) : Type ℓ where
  ok : A → Result A
  err : Failure → Result A

abbrev pub History : Type 0
History = List Call

-- What a job's heartbeat receives while the handler runs: a tick, with the calls that others have made
-- since, the newest first, or the end of the job's context.
pub data Signal : Type 0 where
  ticked : List Call → Signal
  ended : Signal

-- `now` is the time in unix nanoseconds, `closing` and `jobs_cancelled` tell whether runCtx and jobsCtx
-- are cancelled, `handle` is the user's handler, `beside` is what a job's heartbeat receives, `rng` is the worker's random source, `error_text` is
-- `Error()`, `json_ints` encodes a slice of numbers, `none` being the nil slice, and `next_fire pattern tz from` is the first firing of a cron pattern behind a time, in unix nanoseconds.
pub record World : Type 0 where
  pub redis : History → Call → Result Value
  pub pack : Packed → Result Bytes
  pub now : History → ℤ
  pub closing : History → Bool
  pub jobs_cancelled : History → Bool
  pub uuid : History → Bytes
  pub handle : History → Bytes → StringMap → Handled
  pub beside : History → Bytes → List Signal
  pub parse_json : Bytes → Option Json
  pub json_strings : List Bytes → Bytes
  pub json_ints : Option (List ℤ) → Bytes
  pub floats : Floats
  pub rng : History → ℕ
  pub error_text : Failure → Bytes
  pub next_fire : Bytes → Bytes → ℤ → Result ℤ

-- A step of the program: its error or its value, and the calls that it has made by then.
abbrev pub M : Type 0 → Type 0
M A = History → Result A × History

infixl 5 ◌>>=◌ ◌>>◌
abbrev pub ◌>>=◌ : {A B : Type 0} → M A → (A → M B) → M B
◌>>=◌ m f h = let (r, h') = m h in elim r [ ok a ↦ f a h' | err e ↦ (err e, h') ]

abbrev pub ◌>>◌ : {B : Type 0} → M (Unit {0}) → M B → M B
m >> k = m >>= λ _. k

abbrev pub pure : {A : Type 0} → A → M A
pure a h = (ok a, h)

abbrev pub fail : {A : Type 0} → Failure → M A
fail e h = (err e, h)

-- `v, err := m`, where the caller looks at `err` itself.
abbrev pub attempt : {A : Type 0} → M A → M (Result A)
attempt m h = let (r, h') = m h in (ok r, h')

-- `if err != nil { return fmt.Errorf("context: %w", err) }`.
abbrev pub wrapped : {A : Type 0} → Bytes → Result A → Result A
wrapped c (ok a) = ok a
wrapped c (err e) = err (wrap c e)

abbrev pub with_context : {A : Type 0} → Bytes → M A → M A
with_context c m h = let (r, h') = m h in (wrapped c r, h')

abbrev pub checked : {A B : Type 0} → Result A → (A → Result B) → Result B
checked (ok a) f = f a
checked (err e) f = err e

-- What follows a call and makes no call itself.
abbrev pub and_then : {A B : Type 0} → M A → (A → Result B) → M B
and_then m f h = let (r, h') = m h in (checked r f, h')

-- Calls whose replies and errors are dropped.
abbrev pub Effect : Type 0
Effect = History → History

-- Two encodings, either of which may fail, and then what is done with both.
abbrev pub encoded : {B : Type 0} → Result Bytes → Result Bytes → (Bytes → Bytes → M B) → M B
encoded (ok a) (ok b) f h = f a b h
encoded (ok a) (err e) f h = (err e, h)
encoded (err e) r f h = (err e, h)

module _ (w : World) where
  abbrev pub ask : Call → M Value
  ask c h = (w.redis h c, c ∷ h)

  abbrev pub encode : Packed → M Bytes
  encode p h = (w.pack p, h)

  abbrev pub clock : M ℤ
  clock h = (ok (floor_div (w.now h) 1_000_000), h)
