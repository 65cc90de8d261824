-- ===== src/Tests/Setup.antt =====
-- A concrete world and a concrete worker for the tests.
use mkq.Prelude.{
  suc, ◌+◌, ◌*◌, ◌/◌, Bool, true, false, List, [], ◌∷◌, Option, none, some, Bytes, codes, eq_bytes,
  StringMap, pos, negsuc, get_elem?, refl, ltb, if◌then◌else◌,
}
use mkq.Failure.{plain}
use mkq.Backoff.{Floats}
use mkq.Json.{Json, integer, string, object, array, no_element, element, no_member, member}
use mkq.Redis.{
  Value, nil, str, int, arr, values, Arg, text, Call, eval, hget, Packed, pack_str, World, Result,
  ok, err, returned,
}
use mkq.Redis.Scripts.{move_to_finished}
use mkq.Worker.Config.{configure, with_concurrency, with_rate_limit, WorkerOption}
use mkq.Worker.Finish.{Worker, Prefetched}
use mkq.Worker.Finalise.Calls.{Packs}

-- Small numbers stand for themselves.
abbrev pub plain_floats : Floats
plain_floats = record {
  of_int64 = λ n. elim n [ pos k ↦ k | negsuc k ↦ 0 ];
  to_int64 = λ x. pos x;
  add = λ x y. x + y;
  sub = λ x y. x;
  mul = λ x y. x * y;
  div = λ x y. x / y;
  lt = λ x y. ltb x y;
  le = λ x y. ltb x (suc y);
}

-- moveToFinished hands over a next job just when it is asked to.
abbrev pub finished_reply : Option Arg → Value
finished_reply (some (text (c ∷ s))) =
    arr (values (arr (values []) ∷ str (codes "43") ∷ int (pos 0) ∷ int (pos 0) ∷ []))
finished_reply _ = int (pos 0)

abbrev is_finished : Call → Option (List Arg)
is_finished (eval move_to_finished keys args) = some args
is_finished _ = none

abbrev reply : Call → Result Value
reply (eval move_to_finished keys args) = ok (finished_reply (get_elem? args 5))
reply (eval _ keys args) = ok (int (pos 0))
reply (hget key field) = ok (str (codes "1"))
reply _ = ok nil

abbrev pack_bytes : Packed → Bytes
pack_bytes (pack_str s) = s
pack_bytes _ = codes "packed"

abbrev pub three_attempts : Json
three_attempts = object (
    member (codes "attempts") (integer (pos 3)) (
      member (codes "backoff")
        (object (
          member (codes "type") (string (codes "exponential"))
            (member (codes "delay") (integer (pos 1000)) no_member)))
        no_member))

abbrev pub history_text : Bytes
history_text = codes "[\"boom\"]"

abbrev parse : Bytes → Option Json
parse raw =
    if eq_bytes raw (codes "three")
    then some three_attempts
    else if eq_bytes raw history_text
    then some (array (element (string (codes "boom")) no_element))
    else none

-- Whether the worker is closing, and whether the handlers are cancelled.
abbrev pub world_of : Bool → Bool → World
world_of closing cancelled = record {
  redis = λ h c. reply c;
  pack = λ p. ok (pack_bytes p);
  now = λ h. pos 1_700_000_000_000_000_000;
  closing = λ h. closing;
  jobs_cancelled = λ h. cancelled;
  uuid = λ h. codes "token";
  handle = λ h job_id job_map. returned (codes "null");
  beside = λ h job_id. [];
  parse_json = parse;
  json_strings = λ l. history_text;
  json_ints = λ l. codes "[]";
  floats = plain_floats;
  rng = λ h. 0;
  error_text = λ e. codes "boom";
  next_fire = λ pattern tz from. err (plain (codes "no pattern"));
}

abbrev pub open_world : World
open_world = world_of false false

abbrev pub draining : World
draining = world_of true false

abbrev pub stopping : World
stopping = world_of true true

abbrev pub open_world-Packs : Packs open_world
open_world-Packs = record { bytes = pack_bytes; packs = λ p. refl }

abbrev options : List WorkerOption
options = with_concurrency (pos 0) ∷ with_rate_limit (pos 10) (pos 1000) ∷ []

abbrev pub worker : Worker
worker = record {
  cfg = configure (codes "host") options;
  keys = record { prefix = codes "bull"; queue = codes "mail" };
}

-- A job with three attempts, of which Redis counts one.
abbrev pub job_map : StringMap
job_map = (codes "opts", codes "three") ∷ (codes "name", codes "send") ∷ []

abbrev pub job_id : Bytes
job_id = codes "42"

abbrev pub token : Bytes
token = codes "token"

abbrev pub held : Prefetched
held = record { job_map = job_map; job_id = job_id; token = token }
