-- ===== src/Metrics/RoundTrip.antt =====
-- queue_metrics.go: what a worker has counted is what `GetMetrics` reads.
use mkq.Prelude.{
  true, ◌||◌, List, [], ◌∷◌, map, Option, none, some, eq_bytes, ◌≡◌, refl, ℤ, pos, negsuc, ◌≤ℤ◌,
  max_int64, All,
}
use mkq.Decimal.{show_int}
use mkq.Decimal.RoundTrip.{parse_int64-show_int}
use mkq.Backoff.{Floats}
use mkq.Keys.{Builder}
use mkq.Reply.RoundTrip.{elements-values}
use mkq.Redis.{Value, nil, str, int, arr, values, World, History, ok}
use mkq.Inspector.Counts.{JobBucket, bucket_completed, bucket_failed}
use mkq.Metrics.{
  parse_metrics_int, parse_metrics_meta, parse_metrics_data, points_of, metrics_call, get_metrics,
}

abbrev pub Fits : ℤ → Type 0
Fits n = (negsuc max_int64 ≤ℤ n) × (n ≤ℤ pos max_int64)

-- A number as Redis holds it, in decimal, or a field that is not set.
abbrev pub stored : Option ℤ → Value
stored none = nil
stored (some n) = str (show_int n)

abbrev pub or_zero : Option ℤ → ℤ
or_zero none = pos 0
or_zero (some n) = n

abbrev pub FitsIfSet : Option ℤ → Type 0
FitsIfSet none = Unit
FitsIfSet (some n) = Fits n

-- The reply of getMetrics.
abbrev pub metrics_value : Option ℤ → Option ℤ → Option ℤ → List ℤ → ℤ → Value
metrics_value count ts prev points n = arr (
    values (
      arr (values (stored count ∷ stored ts ∷ stored prev ∷ []))
      ∷ arr (values (map (λ p. str (show_int p)) points))
      ∷ int n
      ∷ []))

module _ (fl : Floats) where
  read_back : (o : Option ℤ) → FitsIfSet o → parse_metrics_int fl (stored o) ≡ or_zero o
  unfolding parse_metrics_int
  read_back none h = refl
  read_back (some n) h = rw (parse_metrics_int, parse_int64-show_int n h.0 h.1) refl

  points_back :
      (points : List ℤ)
      → All Fits points
      → points_of fl (map (λ p. str (show_int p)) points) ≡ points
  points_back [] h = refl
  points_back (p ∷ ps) h = rw (read_back (some p) h.0, points_back ps h.1) refl

module _ (w : World) (b : Builder) (h : History) where
  -- For the completed or the failed jobs, GetMetrics makes one call. If Redis holds int64s in decimal,
  -- any of the three of the summary perhaps not set, it gives back just those numbers, the points in
  -- their order and the length of the list; what is not set counts as 0.
  pub get_metrics-reads :
      (kind : JobBucket) (start stop : ℤ) (count ts prev : Option ℤ) (points : List ℤ) (n : ℤ)
      → (eq_bytes kind bucket_completed || eq_bytes kind bucket_failed) ≡ true
      → FitsIfSet count
      → FitsIfSet ts
      → FitsIfSet prev
      → All Fits points
      → w.redis h (metrics_call w b kind start stop) ≡ ok (metrics_value count ts prev points n)
      → get_metrics w b kind start stop h ≡ (
        ok (record {
          meta = record { count = or_zero count; prev_ts = or_zero ts; prev_count = or_zero prev };
          points = points;
          count = n;
        }),
        metrics_call w b kind start stop ∷ h,
      )
  unfolding get_metrics parse_metrics_meta parse_metrics_data
  get_metrics-reads kind start stop count ts prev points n known fc ft fp fs answer =
      rw
        (
          known,
          answer,
          elements-values (map (λ p. str (show_int p)) points),
          read_back w.floats count fc,
          read_back w.floats ts ft,
          read_back w.floats prev fp,
          points_back w.floats points fs,
        )
        refl
