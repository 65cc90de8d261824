-- ===== src/Metrics.antt =====
-- queue_metrics.go: `GetMetrics`.
pub mod RoundTrip
use mkq.Prelude.{◌||◌, List, [], ◌∷◌, ◌++◌, codes, eq_bytes, ℤ, pos, if◌then◌else◌}
use mkq.Failure.{Failure, plain, wrap}
use mkq.Decimal.{parse_int64}
use mkq.Backoff.{Floats}
use mkq.Keys
use mkq.Keys.{Builder}
use mkq.Redis.{
  Value, nil, str, int, arr, elements, number, Call, eval, World, M, Result, ok, err, ask, checked,
  and_then, with_context,
}
use mkq.Redis.Scripts.{get_metrics as get_metrics_script}
use mkq.Reply.{to_int64}
use mkq.Inspector.Counts.{JobBucket, bucket_completed, bucket_failed}

pub record QueueMetricsMeta : Type 0 where
  pub count : ℤ
  pub prev_ts : ℤ
  pub prev_count : ℤ

pub record QueueMetrics : Type 0 where
  pub meta : QueueMetricsMeta
  pub points : List ℤ
  pub count : ℤ

abbrev invalid_metrics_bucket : Failure
invalid_metrics_bucket =
    plain (codes "mkq: GetMetrics kind must be JobBucketCompleted or JobBucketFailed")

module _ (fl : Floats) where
  -- Whatever cannot be read counts as 0; a number out of range as the nearest int64.
  unfoldable pub parse_metrics_int : Value → ℤ
  unfolding parse_int64 to_int64
  parse_metrics_int nil = pos 0
  parse_metrics_int (str s) = (parse_int64 s).0
  parse_metrics_int (int n) = n
  parse_metrics_int v = let (n, fine) = to_int64 fl v in if fine then n else pos 0

  abbrev meta_of : List Value → Result QueueMetricsMeta
  meta_of (a ∷ b ∷ c ∷ []) = ok (record {
    count = parse_metrics_int a;
    prev_ts = parse_metrics_int b;
    prev_count = parse_metrics_int c;
  })
  meta_of vs = err (plain (codes "mkq: getMetrics meta: expected 3 fields"))

  unfoldable pub parse_metrics_meta : Value → Result QueueMetricsMeta
  unfolding parse_metrics_int
  parse_metrics_meta (arr vs) = meta_of (elements vs)
  parse_metrics_meta v = err (plain (codes "mkq: getMetrics meta: unexpected type"))

  abbrev pub points_of : List Value → List ℤ
  points_of [] = []
  points_of (v ∷ vs) = parse_metrics_int v ∷ points_of vs

  unfoldable pub parse_metrics_data : Value → Result (List ℤ)
  unfolding parse_metrics_int
  parse_metrics_data (arr vs) = ok (points_of (elements vs))
  parse_metrics_data v = err (plain (codes "mkq: getMetrics data: unexpected type"))

  abbrev metrics_of : List Value → Result QueueMetrics
  metrics_of (a ∷ b ∷ c ∷ []) = checked (parse_metrics_meta a) (λ meta.
      checked (parse_metrics_data b)
        (λ points. ok (record { meta = meta; points = points; count = (to_int64 fl c).0 })))
  metrics_of vs = err (plain (codes "mkq: getMetrics: unexpected result type"))

  abbrev metrics_reply : Value → Result QueueMetrics
  metrics_reply (arr vs) = metrics_of (elements vs)
  metrics_reply v = err (plain (codes "mkq: getMetrics: unexpected result type"))

module _ (w : World) (b : Builder) where
  abbrev pub metrics_call : JobBucket → ℤ → ℤ → Call
  metrics_call kind start stop =
      let key = Keys.metrics b kind in
      eval get_metrics_script (key ∷ (key ++ codes ":data") ∷ []) (number start ∷ number stop ∷ [])

  unfoldable pub get_metrics : JobBucket → ℤ → ℤ → M QueueMetrics
  unfolding parse_metrics_meta parse_metrics_data to_int64
  get_metrics kind start stop h =
      if eq_bytes kind bucket_completed || eq_bytes kind bucket_failed
      then and_then (with_context (codes "mkq: getMetrics") (ask w (metrics_call kind start stop)))
          (metrics_reply w.floats) h
      else (err (wrap (codes "(got kind)") invalid_metrics_bucket), h)
