-- ===== src/Queue/Add.antt =====
-- queue.go: `Queue.Add`. Its span and its counter are left out.
pub mod Sends
use mkq.Prelude.{
  ℕ, zero, suc, Bool, true, false, ◌&&◌, List, [], ◌∷◌, ◌++◌, Option, none, some, Bytes, codes,
  is_empty, eq_bytes, ℤ, pos, negsuc, quot, ltb, ltb_ℤ, floor_div, not, if◌then◌else◌,
}
use mkq.Failure.{Failure, plain, coded, sentinel, priority_with_delay}
use mkq.Decimal.{show_int}
use mkq.Backoff.{float_zero}
use mkq.Keys
use mkq.Keys.{Builder}
use mkq.Proto.{AddArgs, encode_add_args, encode_add_opts}
use mkq.Redis.{
  Value, str, int, text, Call, eval, get_key, World, History, Effect, M, Result, ok, err,
  with_context, wrapped, and_then, encoded, ask, ◌>>=◌,
}
use mkq.Redis.Scripts.{
  ScriptName, add_standard_job, add_delayed_job, add_prioritized_job, script_name,
}
use mkq.Worker.Config.{millisecond}
use mkq.Queue.Options.{AddConfig, AddOption, no_config, set_options, to_proto_opts}

-- A typed handle to a queue: its name and its keys.
pub record Queue : Type 0 where
  pub name : Bytes
  pub keys : Builder

unfoldable pub define : Bytes → Bytes → Queue
unfolding Keys.new
define key_prefix name = record { name = name; keys = Keys.new key_prefix name }

-- The job that `Add` returns, its payload left out, and whether ErrDuplicateJob comes with it.
pub record Added : Type 0 where
  pub id : Bytes
  pub name : Bytes
  pub timestamp_ms : ℤ
  pub duplicate : Bool

abbrev pub delay_ms : AddConfig → ℤ
delay_ms c = quot c.delay millisecond

-- The checks before anything is encoded.
unfoldable pub refusal : AddConfig → Option Failure
refusal c =
    if ltb_ℤ (pos 0) (delay_ms c) && ltb 0 c.priority
    then some (sentinel priority_with_delay)
    else if c.dedup_set && is_empty c.dedup_id
    then some (plain (codes "mkq: WithDeduplication / WithUnique id must be non-empty"))
    else if c.job_name_set && is_empty c.job_name
    then some (plain (codes "mkq: WithJobName name must be non-empty"))
    else none

unfoldable pub dispatch : Builder → ℤ → ℕ → ScriptName × List Bytes
dispatch b delay priority =
    if ltb_ℤ (pos 0) delay
    then (
      add_delayed_job,
      Keys.slot b Keys.marker
          ∷ Keys.slot b Keys.meta
          ∷ Keys.slot b Keys.id
          ∷ Keys.slot b Keys.delayed
          ∷ Keys.slot b Keys.completed
          ∷ Keys.slot b Keys.events
          ∷ [],
    )
    else if ltb 0 priority
    then (
      add_prioritized_job,
      Keys.slot b Keys.marker
          ∷ Keys.slot b Keys.meta
          ∷ Keys.slot b Keys.id
          ∷ Keys.slot b Keys.prioritized
          ∷ Keys.slot b Keys.delayed
          ∷ Keys.slot b Keys.completed
          ∷ Keys.slot b Keys.active
          ∷ Keys.slot b Keys.events
          ∷ Keys.slot b Keys.priority_counter
          ∷ [],
    )
    else (
      add_standard_job,
      Keys.slot b Keys.wait
          ∷ Keys.slot b Keys.paused
          ∷ Keys.slot b Keys.meta
          ∷ Keys.slot b Keys.id
          ∷ Keys.slot b Keys.completed
          ∷ Keys.slot b Keys.delayed
          ∷ Keys.slot b Keys.active
          ∷ Keys.slot b Keys.events
          ∷ Keys.slot b Keys.marker
          ∷ [],
    )

-- The id is a text; a negative number is an error code.
unfoldable pub parse_add_result : Value → Result Bytes
parse_add_result (str s) = ok s
parse_add_result (int (pos n)) = ok (show_int (pos n))
parse_add_result (int (negsuc n)) =
    err (coded (codes "mkq: lua add returned error code") (negsuc n))
parse_add_result _ = err (plain (codes "mkq: unexpected lua add result"))

module _ (w : World) (q : Queue) where
  abbrev pub job_name : AddConfig → Bytes
  job_name c = if is_empty c.job_name then q.name else c.job_name

  abbrev pub dedup_key : AddConfig → Bytes
  dedup_key c = if is_empty c.dedup_id then [] else Keys.dedup q.keys c.dedup_id

  unfoldable pub add_args : AddConfig → ℤ → AddArgs
  add_args c now = record {
    prefix = Keys.base q.keys;
    custom_id = c.job_id;
    name = job_name c;
    timestamp = now;
    deduplication_key = dedup_key c;
  }

  abbrev pub text_of : Result Value → Bytes
  text_of (ok (str s)) = s
  text_of _ = []

  -- What the deduplication key holds before the script runs; an error counts as nothing.
  abbrev pub held_id : Bytes → History → Bytes
  held_id [] h = []
  held_id (c ∷ s) h = text_of (w.redis h (get_key (c ∷ s)))

  abbrev pub held_id_reads : Bytes → Effect
  held_id_reads [] h = h
  held_id_reads (c ∷ s) h = get_key (c ∷ s) ∷ h

  unfoldable pub previous_id : Bytes → M Bytes
  previous_id key h = (ok (held_id key h), held_id_reads key h)

  abbrev pub added : AddConfig → ℤ → Bytes → Result Bytes → Result Added
  added c now previous (err e) = err e
  added c now previous (ok id) = ok (record {
    id = id;
    name = job_name c;
    timestamp_ms = now;
    duplicate = not (is_empty previous) && eq_bytes previous id;
  })

  abbrev pub add_call : AddConfig → Bytes → Bytes → Bytes → Call
  add_call c args body opts =
      let (s, keys) = dispatch q.keys (delay_ms c) c.priority in
      eval s keys (text args ∷ text body ∷ text opts ∷ [])

  unfoldable pub send : AddConfig → ℤ → Bytes → Bytes → Bytes → M Added
  unfolding previous_id dispatch parse_add_result
  send c now body args opts = do
    previous ← previous_id (dedup_key c)
    and_then
        (with_context (codes "mkq: " ++ script_name (dispatch q.keys (delay_ms c) c.priority).0)
          (ask w (add_call c args body opts)))
        (λ v. added c now previous (parse_add_result v))

  -- `payload` is what json.Marshal gives for it.
  abbrev pub add_payload : AddConfig → Result Bytes → M Added
  add_payload c (err e) h = (err e, h)
  add_payload c (ok body) h =
      let now = floor_div (w.now h) 1_000_000 in
      encoded (wrapped (codes "mkq: encode args") (w.pack (encode_add_args (add_args c now))))
        (wrapped (codes "mkq: encode opts") (
          w.pack
            (encode_add_opts (w.floats.lt float_zero) (to_proto_opts w.floats c (delay_ms c)))))
        (send c now body) h

  abbrev pub unless : Option Failure → M Added → M Added
  unless (some e) m h = (err e, h)
  unless none m h = m h

  abbrev pub add_config : AddConfig → Result Bytes → M Added
  add_config c payload =
      unless (refusal c) (add_payload c (wrapped (codes "mkq: marshal payload") payload))

  unfoldable pub add : Result Bytes → List AddOption → M Added
  unfolding set_options refusal send add_args
  add payload options = add_config (set_options options no_config) payload
