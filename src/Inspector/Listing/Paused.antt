-- ===== src/Inspector/Listing/Paused.antt =====
-- inspector_list.go and inspector.go: the paused jobs, listed and counted.
use mkq.Prelude.{
  ℕ, suc, Bool, true, false, List, [], ◌∷◌, reverse, Option, none, some, Bytes, codes, ℤ, pos,
  negsuc, StringMap, if◌then◌else◌, length, length-append, ◌≡◌, refl, ap, arith, ◌==◌, inl, inr,
  All, All-append,
}
use mathlib.Core.List.{reverse-cons}
use mkq.Keys
use mkq.Keys.{Builder}
use mkq.Redis.{int, arr, values, hexists, hgetall, llen, World, History, Result, ok, err}
use mkq.Job.{Payload}
use mkq.Inspector.Counts.{
  JobBucket, QueueCounts, bucket_wait, bucket_paused, all_buckets, contains_bucket, counts,
  counts_call, is_paused,
}
use mkq.Inspector.Counts.Loop.{sizes_reply}
use mkq.Inspector.Counts.Snapshot.{counts-snapshot, snapshot}
use mkq.Inspector.Listing.{
  ListedJob, is_list_bucket, ranges_call, source_of, list_jobs, list_source, ordered,
}
use mkq.Inspector.Listing.Order.{
  hash_answer, ids_reply, Stored, Gone, Broken, Lists, AnyBroken, Gathers, list_source-Gathers,
}

suc_not_zero : (n : ℕ) → (suc n == 0) ≡ false
suc_not_zero n = ground arith

wait-IsList : is_list_bucket bucket_wait ≡ true
unfolding is_list_bucket
wait-IsList = refl

paused-IsList : is_list_bucket bucket_paused ≡ true
unfolding is_list_bucket
paused-IsList = refl

length-reverse : {A : Type 0} (xs : List A) → length (reverse xs) ≡ length xs
length-reverse [] = refl
length-reverse (x ∷ xs) =
    rw (reverse-cons x xs, length-append (reverse xs) (x ∷ [])) (omega (arith, length-reverse xs))

-- A list read backwards keeps what holds of all of it.
All-reverse : (P : Bytes → Type 0) (ids : List Bytes) → All P ids → All P (reverse ids)
All-reverse P [] h = tt
All-reverse P (i ∷ ids) h =
    rw (reverse-cons i ids) (All-append P (reverse ids) (i ∷ []) (All-reverse P ids h.1) (h.0, tt))

module _ {T : Type 0} (w : World) (p : Payload T) (b : Builder) (answers : Bytes → Result StringMap)
    (contents : JobBucket → List Bytes) (halted : Bool) where
  abbrev pub sizes : JobBucket → ℤ
  sizes s = pos (length (contents s))

  abbrev held_by : List Bytes → Bool → List Bytes
  held_by [] true = contents bucket_wait
  held_by [] false = []
  held_by (i ∷ ids) q = i ∷ ids

  -- The jobs that a pause holds back: those of the legacy list, or else the waiting jobs of a halted queue.
  abbrev pub held_back : List Bytes
  held_back = held_by (contents bucket_paused) halted

  -- The job's HASH is stored and decodes.
  abbrev pub IsStored : Bytes → Type 0
  IsStored i = (j : ListedJob T) × Stored w p b answers i j

  stays_stored : (i : Bytes) → IsStored i → Gone w p b answers i → ⊥
  stays_stored i (j, (kv, m, e, d, t)) (inl g) = cc
  stays_stored i (j, (kv, m, e, d, t)) (inr (x, g, n)) = cc

  reads_well : (i : Bytes) → IsStored i → Broken w p b answers i → ⊥
  reads_well i (j, (kv, m, e, d, t)) (inl (x, g, n)) = cc
  reads_well i (j, (kv, m, e, d, t)) (inr (kv', m', x, g, y)) = cc

  length-Lists :
      (ids : List Bytes) (js : List (ListedJob T))
      → All IsStored ids
      → Lists w p b answers ids js
      → length js ≡ length ids
  length-Lists [] js h e = rw (e) refl
  length-Lists (i ∷ ids) js h (inl (gone, l)) = absurd (stays_stored i h.0 gone)
  length-Lists (i ∷ ids) js h (inr (j, js', e, stored, l)) =
      rw (e) (ap (λ n. suc n) (length-Lists ids js' h.1 l))

  nothing_fails : (ids : List Bytes) → All IsStored ids → AnyBroken w p b answers ids → ⊥
  nothing_fails [] h x = absurd x
  nothing_fails (i ∷ ids) h (inl x) = reads_well i h.0 x
  nothing_fails (i ∷ ids) h (inr x) = nothing_fails ids h.1 x

  -- When all of them are stored the listing succeeds, and misses none.
  every_one :
      (ids : List Bytes) (q : Result (List (ListedJob T)))
      → All IsStored ids
      → Gathers w p b answers ids q
      → (js : List (ListedJob T)) × (q ≡ ok js)
        × Lists w p b answers ids js
        × (length js ≡ length ids)
  every_one ids (ok js) h g = (js, refl, g, length-Lists ids js h g)
  every_one ids (err x) h g = absurd (nothing_fails ids h g)

  module _
      (hashed : (h : History) (i : Bytes)
        → w.redis h (hgetall (Keys.job b i)) ≡ hash_answer (answers i))
      (alive : (s : JobBucket) → All IsStored (contents s))
      (counting : (h : History) (bs : List JobBucket)
        → w.redis h (counts_call w b bs) ≡ ok (arr (values (sizes_reply sizes bs))))
      (flagged : (h : History)
        → w.redis h (hexists (Keys.slot b Keys.meta) (codes "paused"))
          ≡ ok (int (pos (if halted then 1 else 0))))
      (legacy : (h : History)
        → w.redis h (llen (Keys.slot b Keys.paused)) ≡ ok (int (sizes bucket_paused)))
      (ranged : (h : History) (ascending : Bool) (s : JobBucket)
        → is_list_bucket s ≡ true
        → w.redis h (ranges_call w p b (pos 0) (negsuc 0) ascending s)
          ≡ ok (ids_reply (contents s))) where
    abbrev found : List Bytes → Bool → Option JobBucket
    found [] true = some bucket_wait
    found [] false = none
    found (i ∷ ids) q = some bucket_paused

    source_found :
        (ids : List Bytes) (q : Bool) (h : History)
        → contents bucket_paused ≡ ids
        → halted ≡ q
        → (source_of w p b bucket_paused h).0 ≡ ok (found ids q)
    unfolding source_of is_paused
    source_found [] true h e f =
        rw (legacy h, e, flagged (llen (Keys.slot b Keys.paused) ∷ h), f) refl
    source_found [] false h e f =
        rw (legacy h, e, flagged (llen (Keys.slot b Keys.paused) ∷ h), f) refl
    source_found (i ∷ ids) q h e f = rw (legacy h, e, suc_not_zero (length ids)) refl

    abbrev in_order : Bool → List Bytes → List Bytes
    in_order ascending ids = if ascending then reverse ids else ids

    list_jobs_step :
        (ascending : Bool) (h : History) (o : Option JobBucket)
        → (source_of w p b bucket_paused h).0 ≡ ok o
        → list_jobs w p b bucket_paused (pos 0) (negsuc 0) ascending h
          ≡ list_source w p b (pos 0) (negsuc 0) ascending o (source_of w p b bucket_paused h).1
    unfolding list_jobs
    list_jobs_step ascending h o e = rw (e) refl

    ordered_list :
        (ascending : Bool) (source : JobBucket) (ids : List Bytes)
        → is_list_bucket source ≡ true
        → ordered w p b ascending source ids ≡ in_order ascending ids
    ordered_list true source ids e = rw (e) refl
    ordered_list false source ids e = refl

    from_list :
        (ascending : Bool) (source : JobBucket) (h : History)
        → is_list_bucket source ≡ true
        → Gathers w p b answers
            (in_order ascending (contents source))
            (list_source w p b (pos 0) (negsuc 0) ascending (some source) h).0
    from_list ascending source h e = rw (← ordered_list ascending source (contents source) e) (
        list_source-Gathers w p b answers hashed ascending (pos 0) (negsuc 0) source
          (contents source) h (ranged h ascending source e))

    list_from :
        (ascending : Bool) (ids : List Bytes) (q : Bool) (h : History)
        → contents bucket_paused ≡ ids
        → Gathers w p b answers
            (in_order ascending (held_by ids q))
            (list_source w p b (pos 0) (negsuc 0) ascending (found ids q) h).0
    list_from ascending [] true h e = from_list ascending bucket_wait h wait-IsList
    list_from true [] false h e = refl
    list_from false [] false h e = refl
    list_from ascending (i ∷ ids) q h e =
        rw (← e) (from_list ascending bucket_paused h paused-IsList)

    -- Listed are the jobs that the pause holds back, the oldest first when that is asked for.
    list_paused :
        (ascending : Bool) (h : History)
        → Gathers w p b answers
            (in_order ascending held_back)
            (list_jobs w p b bucket_paused (pos 0) (negsuc 0) ascending h).0
    list_paused ascending h =
        rw
          (list_jobs_step ascending h (found (contents bucket_paused) halted)
            (source_found (contents bucket_paused) halted h refl refl))
          (list_from ascending (contents bucket_paused) halted (source_of w p b bucket_paused h).1
            refl)

    held-IsStored : (ids : List Bytes) (q : Bool) → All IsStored ids → All IsStored (held_by ids q)
    held-IsStored [] true h = alive bucket_wait
    held-IsStored [] false h = tt
    held-IsStored (i ∷ ids) q h = h

    in_order-IsStored :
        (ascending : Bool) (ids : List Bytes)
        → All IsStored ids
        → All IsStored (in_order ascending ids)
    in_order-IsStored true ids h = All-reverse IsStored ids h
    in_order-IsStored false ids h = h

    length-in_order :
        (ascending : Bool) (ids : List Bytes) → length (in_order ascending ids) ≡ length ids
    length-in_order true ids = length-reverse ids
    length-in_order false ids = refl

    held_size :
        (ids : List Bytes) (q : Bool)
        → contents bucket_paused ≡ ids
        → halted ≡ q
        → (snapshot sizes halted all_buckets).paused ≡ pos (length (held_by ids q))
    unfolding contains_bucket
    held_size [] true e f = rw (e, f) refl
    held_size [] false e f = rw (e, f) refl
    held_size (i ∷ ids) q e f = rw (e, suc_not_zero (length ids)) refl

    -- When each id in the lists of the states has its HASH, which decodes, and Redis answers for the sizes
    -- and the contents of these lists and for the pause flag as they are: ListJobs(paused) succeeds, with
    -- one job for each of those that the pause holds back, the oldest first when that is asked for, and
    -- the Paused of Counts is how many they are.
    pub list_jobs-counts :
        (ascending : Bool) (h g : History)
        → (jobs_listed : List (ListedJob T)) × (c : QueueCounts) × ((list_jobs w p b bucket_paused
              (pos 0)
              (negsuc 0)
              ascending
              h).0
            ≡ ok jobs_listed)
          × Lists w p b answers (if ascending then reverse held_back else held_back) jobs_listed
          × ((counts w b [] g).0 ≡ ok c)
          × (c.paused ≡ pos (length jobs_listed))
    list_jobs-counts ascending h g =
        let (js, listed, are, count) =
          every_one (in_order ascending held_back)
            (list_jobs w p b bucket_paused (pos 0) (negsuc 0) ascending h).0
            (in_order-IsStored ascending held_back
              (held-IsStored (contents bucket_paused) halted (alive bucket_paused)))
            (list_paused ascending h) in
        (
          js,
          snapshot sizes halted all_buckets,
          listed,
          are,
          counts-snapshot w b sizes halted counting flagged [] g,
          rw (count, length-in_order ascending held_back)
              (held_size (contents bucket_paused) halted refl refl),
        )
