-- ===== src/Inspector/Counts/Snapshot.antt =====
-- inspector.go: what `Counts` makes of the sizes of the states.
use mkq.Prelude.{
  Bool, true, ◌&&◌, List, ◌∷◌, codes, ℤ, pos, if◌then◌else◌, Bool-cases, ◌≡◌, refl, inl, inr,
}
use mkq.Keys
use mkq.Keys.{Builder}
use mkq.Redis.{int, arr, values, hexists, World, History, ok}
use mkq.Reply.RoundTrip.{elements-values}
use mkq.Inspector.Counts.{
  settle_paused, JobBucket, bucket_wait, bucket_paused, QueueCounts, contains_bucket, is_zero,
  requested, query_of, is_paused, counts_call, counts,
}
use mkq.Inspector.Counts.Loop.{
  tallied, sizes_reply, waiting, waiting-query_of, count_query, length-sizes_reply,
}

module _ (sizes : JobBucket → ℤ) where
  -- What `Counts` should answer when the queue is halted or not: the size of each requested state. A paused
  -- queue's waiting jobs are the paused ones, unless a legacy list holds some.
  abbrev pub snapshot : Bool → List JobBucket → QueueCounts
  snapshot halted bs =
      let c = tallied sizes (contains_bucket bs) in
      if contains_bucket bs bucket_paused && is_zero (sizes bucket_paused) && halted
      then record c { paused = sizes bucket_wait }
      else c

module _ (w : World) (b : Builder) (sizes : JobBucket → ℤ) (halted : Bool)
    (counting : (h : History) (bs : List JobBucket)
      → w.redis h (counts_call w b bs) ≡ ok (arr (values (sizes_reply sizes bs))))
    (flagged : (h : History)
      → w.redis h (hexists (Keys.slot b Keys.meta) (codes "paused"))
        ≡ ok (int (pos (if halted then 1 else 0)))) where
  settled :
      (bs : List JobBucket) (n : ℤ) (h : History)
      → (contains_bucket bs bucket_paused ≡ true → n ≡ sizes bucket_wait)
      → (settle_paused w b
          (contains_bucket bs bucket_paused)
          (tallied sizes (contains_bucket bs), n)
          h).0
        ≡ ok (snapshot sizes halted bs)
  unfolding is_paused
  settled bs n h k = elim (Bool-cases (contains_bucket bs bucket_paused)) [
    | inl e ↦ elim (Bool-cases (is_zero (sizes bucket_paused))) [
      | inl z ↦ elim (Bool-cases halted) [
        | inl f ↦ rw (e, z, flagged h, f, k e) refl
        | inr f ↦ rw (e, z, flagged h, f) refl
      ]
      | inr z ↦ rw (e, z) refl
    ]
    | inr e ↦ rw (e) refl
  ]

  -- When getCounts gives the size of every state that it is asked for, and HEXISTS whether the queue is
  -- paused, Counts answers with the sizes of the requested states and 0 for the others; the paused jobs are
  -- those of the legacy list, or the waiting jobs of a paused queue when that list is empty.
  pub counts-snapshot :
      (bs : List JobBucket) (h : History)
      → (counts w b bs h).0 ≡ ok (snapshot sizes halted (requested bs))
  unfolding counts is_paused
  counts-snapshot bs h =
      let query = query_of (requested bs) in
      rw
        (
          counting h query,
          elements-values (sizes_reply sizes query),
          length-sizes_reply sizes query,
          count_query sizes w.floats (requested bs),
        )
        (settled (requested bs) (waiting sizes query (pos 0)) (counts_call w b query ∷ h)
          (waiting-query_of sizes (requested bs)))
