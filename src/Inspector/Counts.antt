-- ===== src/Inspector/Counts.antt =====
-- inspector.go: `Queue.Counts`, and inspector_admin.go's `IsPaused`.
pub mod Loop
pub mod Snapshot
use mkq.Prelude.{
  ℕ, zero, suc, Bool, true, false, not, ◌&&◌, List, [], ◌∷◌, ◌++◌, map, Bytes, codes, ℤ, pos,
  negsuc, ◌==◌, eq_bytes, length, if◌then◌else◌,
}
use mkq.Failure.{plain}
use mkq.Keys
use mkq.Keys.{Builder}
use mkq.Backoff.{Floats}
use mkq.Redis.{
  Value, int, arr, elements, text, Call, eval, hexists, World, M, Result, ok, err, ask, checked,
  and_then, pure, with_context, ◌>>=◌,
}
use mkq.Redis.Scripts.{get_counts}
use mkq.Reply.{to_int64}

-- A string; the constants are the states that the scripts know.
abbrev pub JobBucket : Type 0
JobBucket = Bytes

abbrev pub bucket_wait : JobBucket
bucket_wait = codes "wait"

abbrev pub bucket_active : JobBucket
bucket_active = codes "active"

abbrev pub bucket_delayed : JobBucket
bucket_delayed = codes "delayed"

abbrev pub bucket_prioritized : JobBucket
bucket_prioritized = codes "prioritized"

abbrev pub bucket_completed : JobBucket
bucket_completed = codes "completed"

abbrev pub bucket_failed : JobBucket
bucket_failed = codes "failed"

abbrev pub bucket_paused : JobBucket
bucket_paused = codes "paused"

abbrev pub all_buckets : List JobBucket
all_buckets =
    bucket_wait ∷ bucket_active ∷ bucket_delayed ∷ bucket_prioritized ∷ bucket_completed
    ∷ bucket_failed ∷ bucket_paused ∷ []

pub record QueueCounts : Type 0 where
  pub wait : ℤ
  pub active : ℤ
  pub delayed : ℤ
  pub prioritized : ℤ
  pub completed : ℤ
  pub failed : ℤ
  pub paused : ℤ

abbrev pub no_counts : QueueCounts
no_counts = record {
  wait = pos 0;
  active = pos 0;
  delayed = pos 0;
  prioritized = pos 0;
  completed = pos 0;
  failed = pos 0;
  paused = pos 0;
}

unfoldable pub contains_bucket : List JobBucket → JobBucket → Bool
contains_bucket [] want = false
contains_bucket (b ∷ bs) want =
    let rest = contains_bucket bs want in if eq_bytes b want then true else rest

-- A state that the program does not know is dropped.
unfoldable pub assign_bucket : JobBucket → ℤ → QueueCounts → QueueCounts
assign_bucket b n c =
    if eq_bytes b bucket_wait
    then record c { wait = n }
    else if eq_bytes b bucket_active
    then record c { active = n }
    else if eq_bytes b bucket_delayed
    then record c { delayed = n }
    else if eq_bytes b bucket_prioritized
    then record c { prioritized = n }
    else if eq_bytes b bucket_completed
    then record c { completed = n }
    else if eq_bytes b bucket_failed
    then record c { failed = n }
    else if eq_bytes b bucket_paused
    then record c { paused = n }
    else c

-- go-redis reads the reply of HEXISTS as a Boolean.
abbrev as_bool : Value → Bool
as_bool (int (pos n)) = n == 1
as_bool _ = false

abbrev pub is_zero : ℤ → Bool
is_zero (pos n) = n == 0
is_zero (negsuc n) = false

-- The caller's buckets, all of them when it names none.
abbrev pub requested : List JobBucket → List JobBucket
requested [] = all_buckets
requested (b ∷ bs) = b ∷ bs

-- A caller that asks for the paused jobs needs the waiting ones too.
unfoldable pub query_of : List JobBucket → List JobBucket
unfolding contains_bucket
query_of bs =
    if contains_bucket bs bucket_paused && not (contains_bucket bs bucket_wait)
    then bs ++ (bucket_wait ∷ [])
    else bs

module _ (fl : Floats) (want_wait : Bool) where
  -- One turn of the loop, on the counts and `waitCount`.
  unfoldable pub count_one : JobBucket → Value → QueueCounts × ℤ → QueueCounts × ℤ
  unfolding assign_bucket to_int64
  count_one b raw (out, wait_count) =
      let n = (to_int64 fl raw).0 in
      if eq_bytes b bucket_wait
      then (if want_wait then (assign_bucket b n out, n) else (out, n))
      else (assign_bucket b n out, wait_count)

  unfoldable pub count_all : List JobBucket → List Value → QueueCounts × ℤ → QueueCounts × ℤ
  unfolding count_one
  count_all (b ∷ bs) (v ∷ vs) acc = count_all bs vs (count_one b v acc)
  count_all _ _ acc = acc

module _ (w : World) (b : Builder) where
  unfoldable pub is_paused : M Bool
  is_paused =
      and_then
        (with_context (codes "mkq: isPaused")
          (ask w (hexists (Keys.slot b Keys.meta) (codes "paused"))))
        (λ v. ok (as_bool v))

  -- With no legacy list of paused jobs, the waiting jobs of a paused queue are the paused ones.
  abbrev pub settle_paused : Bool → QueueCounts × ℤ → M QueueCounts
  settle_paused want (out, wait_count) =
      if want && is_zero out.paused
      then and_then is_paused
          (λ paused. ok (if paused then record out { paused = wait_count } else out))
      else pure out

  abbrev pub counts_call : List JobBucket → Call
  counts_call query = eval get_counts (Keys.base b ∷ []) (map text query)

  abbrev pub counted : List JobBucket → List JobBucket → Value → Result (QueueCounts × ℤ)
  counted buckets query (arr vs) =
      if length (elements vs) == length query
      then ok (
          count_all w.floats (contains_bucket buckets bucket_wait) query (elements vs)
            (no_counts, pos 0))
      else err (plain (codes "mkq: getCounts: result length"))
  counted buckets query _ = err (plain (codes "mkq: getCounts: unexpected result type"))

  abbrev pub counts_of : List JobBucket → M QueueCounts
  counts_of buckets =
      and_then (with_context (codes "mkq: getCounts") (ask w (counts_call (query_of buckets))))
        (counted buckets (query_of buckets))
      >>= settle_paused (contains_bucket buckets bucket_paused)

  unfoldable pub counts : List JobBucket → M QueueCounts
  unfolding query_of count_all is_paused
  counts buckets = counts_of (requested buckets)
