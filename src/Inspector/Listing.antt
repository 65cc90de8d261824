-- ===== src/Inspector/Listing.antt =====
-- inspector_list.go: `Queue.ListJobs`.
pub mod Order
pub mod Paused
use mkq.Prelude.{
  ℕ, zero, suc, Bool, true, false, ◌&&◌, ◌||◌, List, [], ◌∷◌, ◌++◌, Option, none, some, reverse,
  Bytes, codes, ℤ, pos, StringMap, ◌==◌, eq_bytes, if◌then◌else◌,
}
use mkq.Failure.{Failure, plain, redis_nil, wrap}
use mkq.Decimal.{show_int}
use mkq.Keys
use mkq.Keys.{Builder}
use mkq.Redis.{
  Value, nil, str, int, arr, elements, text, Call, eval, hgetall, llen, World, History, M, Result,
  ok, err, ask, checked, wrapped, and_then, pure, fail, with_context, ◌>>=◌,
}
use mkq.Redis.Scripts.{get_ranges}
use mkq.Job.{Job, JobState, Payload, build_job, build_job_state, hash_of}
use mkq.Inspector.Admin.{flag}
use mkq.Inspector.Counts.{JobBucket, bucket_wait, bucket_active, bucket_paused, is_zero, is_paused}

pub record ListedJob (T : Type 0) : Type 0 where
  pub job : Job T
  pub state : JobState

-- The lists of Redis; the other states are sorted sets.
unfoldable pub is_list_bucket : JobBucket → Bool
is_list_bucket b = eq_bytes b bucket_wait || eq_bytes b bucket_paused || eq_bytes b bucket_active

abbrev pub strings : List Value → Result (List Bytes)
strings [] = ok []
strings (str s ∷ vs) = checked (strings vs) (λ r. ok (s ∷ r))
strings (_ ∷ vs) = err (plain (codes "element not a string"))

unfoldable pub to_string_slice : Value → Result (List Bytes)
to_string_slice nil = ok []
to_string_slice (arr vs) = strings (elements vs)
to_string_slice _ = err (plain (codes "expected []any"))

-- The Exec of a pipeline gives the first error of its commands.
abbrev pub exec_error : List (Bytes × Result Value) → Option Failure
exec_error [] = none
exec_error ((k, ok v) ∷ r) = exec_error r
exec_error ((k, err e) ∷ r) = some e

-- `err == redis.Nil`.
abbrev pub is_nil : Failure → Bool
is_nil redis_nil = true
is_nil _ = false

-- `res.(int64)` of LLEN.
abbrev pub as_int : Value → ℤ
as_int (int n) = n
as_int _ = pos 0

module _ {T : Type 0} (w : World) (p : Payload T) (b : Builder) where
  -- A HASH with no field is a job that is gone.
  abbrev pub from_listed : Bytes → StringMap → Result (List (ListedJob T))
  from_listed job_id [] = ok []
  from_listed job_id (kv ∷ m) =
      checked (wrapped (codes "mkq: buildJob " ++ job_id) (build_job p job_id (kv ∷ m)))
        (λ job. ok (record { job = job; state = build_job_state w (kv ∷ m) } ∷ []))

  abbrev pub read_reply : Bytes → Result Value → Result (List (ListedJob T))
  read_reply job_id (ok v) = from_listed job_id (hash_of v)
  read_reply job_id (err e) =
      if is_nil e then ok [] else err (wrap (codes "mkq: HGetAll " ++ job_id) e)

  -- The loop over the replies, which stops at the first error.
  unfoldable pub read_replies : List (Bytes × Result Value) → Result (List (ListedJob T))
  read_replies [] = ok []
  read_replies ((job_id, r) ∷ rs) =
      checked (read_reply job_id r) (λ xs. checked (read_replies rs) (λ ys. ok (xs ++ ys)))

  -- The commands of the pipeline, each with its reply.
  abbrev pub piped : List Bytes → History → List (Bytes × Result Value) × History
  piped [] h = ([], h)
  piped (job_id ∷ ids) h =
      let c = hgetall (Keys.job b job_id) in
      let (rs, h') = piped ids (c ∷ h) in ((job_id, w.redis h c) ∷ rs, h')

  abbrev pub fetched : Option Failure → List (Bytes × Result Value) → Result (List (ListedJob T))
  fetched none rs = read_replies rs
  fetched (some e) rs =
      if is_nil e then read_replies rs else err (wrap (codes "mkq: pipeline HGetAll") e)

  unfoldable pub fetch_jobs : List Bytes → M (List (ListedJob T))
  unfolding read_replies
  fetch_jobs ids h = let (rs, h') = piped ids h in (fetched (exec_error rs) rs, h')

  -- The state that is read, `none` for the paused jobs of a queue that is running.
  abbrev by_flag : Bool → Option JobBucket
  by_flag true = some bucket_wait
  by_flag false = none

  abbrev by_legacy : ℤ → M (Option JobBucket)
  by_legacy legacy =
      if is_zero legacy
      then and_then (is_paused w b) (λ q. ok (by_flag q))
      else pure (some bucket_paused)

  unfoldable pub source_of : JobBucket → M (Option JobBucket)
  source_of bucket =
      if eq_bytes bucket bucket_paused
      then (with_context (codes "mkq: LLEN paused") (ask w (llen (Keys.slot b Keys.paused)))
          >>= (λ v. by_legacy (as_int v)))
      else pure (some bucket)

  abbrev pub ranges_call : ℤ → ℤ → Bool → JobBucket → Call
  ranges_call start stop ascending source =
      eval get_ranges (Keys.base b ∷ [])
        (text (show_int start) ∷ text (show_int stop) ∷ text (flag ascending) ∷ text source ∷ [])

  -- The one reply of the one state that was asked for.
  abbrev ids_of : List Value → Result (List Bytes)
  ids_of [] = ok []
  ids_of (v ∷ vs) = wrapped (codes "mkq: getRanges") (to_string_slice v)

  abbrev pub ids_in : Value → Result (List Bytes)
  ids_in (arr vs) = ids_of (elements vs)
  ids_in _ = err (plain (codes "mkq: getRanges: unexpected result type"))

  -- A list comes newest first, whichever end its window is cut from.
  abbrev pub ordered : Bool → JobBucket → List Bytes → List Bytes
  ordered ascending source ids = if ascending && is_list_bucket source then reverse ids else ids

  abbrev pub fetch_some : Bool → JobBucket → List Bytes → M (List (ListedJob T))
  fetch_some ascending source [] = pure []
  fetch_some ascending source (i ∷ ids) = fetch_jobs (ordered ascending source (i ∷ ids))

  abbrev pub list_source : ℤ → ℤ → Bool → Option JobBucket → M (List (ListedJob T))
  list_source start stop ascending none = pure []
  list_source start stop ascending (some source) =
      and_then
        (with_context (codes "mkq: getRanges") (ask w (ranges_call start stop ascending source)))
        ids_in
      >>= fetch_some ascending source

  unfoldable pub list_jobs : JobBucket → ℤ → ℤ → Bool → M (List (ListedJob T))
  unfolding source_of fetch_jobs to_string_slice
  list_jobs bucket start stop ascending = source_of bucket >>= list_source start stop ascending
