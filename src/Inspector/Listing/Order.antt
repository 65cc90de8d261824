-- ===== src/Inspector/Listing/Order.antt =====
-- inspector_list.go: which jobs `ListJobs` gives, in which order, and when it fails.
use mkq.Prelude.{
  Bool, true, false, ◌&&◌, List, [], ◌∷◌, ◌++◌, map, reverse, Option, none, some, Bytes, ℤ,
  StringMap, eq_bytes, if◌then◌else◌, Bool-cases, ◌≡◌, refl, ap, ◌⊎◌, inl, inr,
}
use mkq.Failure.{Failure}
use mkq.Keys
use mkq.Keys.{Builder}
use mkq.Redis.{
  Value, str, arr, values, cons, end, hgetall, World, History, Result, ok, err, checked,
}
use mkq.Reply.RoundTrip.{elements-values, flatten}
use mkq.Job.{Job, Payload, build_job, build_job_state, hash_of, pairs_of}
use mkq.Inspector.Counts.{JobBucket, bucket_paused}
use mkq.Inspector.Listing.{
  ListedJob, is_list_bucket, to_string_slice, exec_error, read_replies, piped, fetch_jobs, fetched,
  is_nil, ranges_call, ordered, list_jobs, strings, from_listed, read_reply, fetch_some,
  list_source,
}

-- The reply of HGETALL for a HASH.
abbrev pub hash_reply : StringMap → Value
hash_reply m = arr (values (flatten m))

pairs_of-flatten : (m : StringMap) → pairs_of (flatten m) ≡ m
pairs_of-flatten [] = refl
pairs_of-flatten ((k, v) ∷ m) = ap (λ r. (k, v) ∷ r) (pairs_of-flatten m)

hash_of-hash_reply : (m : StringMap) → hash_of (hash_reply m) ≡ m
hash_of-hash_reply m = rw (elements-values (flatten m)) (pairs_of-flatten m)

-- The reply of getRanges for one state.
abbrev pub ids_reply : List Bytes → Value
ids_reply ids = arr (cons (arr (values (map (λ s. str s) ids))) end)

strings_lem : (ids : List Bytes) → strings (map (λ s. str s) ids) ≡ ok ids
strings_lem [] = refl
strings_lem (i ∷ ids) = rw (strings_lem ids) refl

-- HGETALL for a job: its HASH, which has no field when the job is gone, or a failure.
abbrev pub hash_answer : Result StringMap → Result Value
hash_answer (ok m) = ok (hash_reply m)
hash_answer (err e) = err e

module _ {T : Type 0} (w : World) (p : Payload T) (b : Builder)
    (answers : Bytes → Result StringMap) where
  -- The job has a HASH, and it decodes to this.
  abbrev pub Stored : Bytes → ListedJob T → Type 0
  Stored i j =
      (kv : Bytes × Bytes) × (m : StringMap) × (answers i ≡ ok (kv ∷ m))
      × (build_job p i (kv ∷ m) ≡ ok j.job)
      × (j.state ≡ build_job_state w (kv ∷ m))

  -- There is no HASH; go-redis may say so by its Nil.
  abbrev pub Gone : Bytes → Type 0
  Gone i = (answers i ≡ ok []) ⊎ ((e : Failure) × (answers i ≡ err e) × (is_nil e ≡ true))

  -- HGETALL fails, or what is stored does not decode.
  abbrev pub Broken : Bytes → Type 0
  Broken i =
      ((e : Failure) × (answers i ≡ err e) × (is_nil e ≡ false))
      ⊎ ((kv : Bytes × Bytes) × (m : StringMap) × (e : Failure) × (answers i ≡ ok (kv ∷ m))
          × (build_job p i (kv ∷ m) ≡ err e))

  -- One job for every id, in their order, less those that are gone.
  abbrev pub Lists : List Bytes → List (ListedJob T) → Type 0
  Lists [] js = js ≡ []
  Lists (i ∷ ids) js =
      (Gone i × Lists ids js)
      ⊎ ((j : ListedJob T) × (js' : List (ListedJob T)) × (js ≡ j ∷ js')
          × Stored i j
          × Lists ids js')

  abbrev pub AnyBroken : List Bytes → Type 0
  AnyBroken [] = ⊥
  AnyBroken (i ∷ ids) = Broken i ⊎ AnyBroken ids

  abbrev pub Gathers : List Bytes → Result (List (ListedJob T)) → Type 0
  Gathers ids (ok js) = Lists ids js
  Gathers ids (err e) = AnyBroken ids

  replies : List Bytes → List (Bytes × Result Value)
  replies ids = map (λ i. (i, hash_answer (answers i))) ids

  -- The replies behind the first one.
  abbrev behind : Result (List (ListedJob T)) → List (ListedJob T) → Result (List (ListedJob T))
  behind q xs = checked q (λ ys. ok (xs ++ ys))

  absent-Gathers :
      (i : Bytes) (ids : List Bytes) (q : Result (List (ListedJob T)))
      → Gone i
      → Gathers ids q
      → Gathers (i ∷ ids) (behind q [])
  absent-Gathers i ids (ok js) gone g = inl (gone, g)
  absent-Gathers i ids (err e) gone g = inr g

  stored-Gathers :
      (i : Bytes) (ids : List Bytes) (q : Result (List (ListedJob T))) (j : ListedJob T)
      → Stored i j
      → Gathers ids q
      → Gathers (i ∷ ids) (behind q (j ∷ []))
  stored-Gathers i ids (ok js) j stored g = inr (j, js, refl, stored, g)
  stored-Gathers i ids (err e) j stored g = inr g

  built-Gathers :
      (i : Bytes) (ids : List Bytes) (q : Result (List (ListedJob T))) (kv : Bytes × Bytes)
      (m : StringMap) (r : Result (Job T))
      → answers i ≡ ok (kv ∷ m)
      → build_job p i (kv ∷ m) ≡ r
      → Gathers ids q
      → Gathers (i ∷ ids) (checked (from_listed w p b i (kv ∷ m)) (behind q))
  built-Gathers i ids q kv m (ok job) e d g =
      rw (d) (stored-Gathers i ids q _ (kv, m, e, d, refl) g)
  built-Gathers i ids q kv m (err x) e d g = rw (d) (inl (inr (kv, m, x, e, d)))

  hash-Gathers :
      (i : Bytes) (ids : List Bytes) (q : Result (List (ListedJob T))) (m : StringMap)
      → answers i ≡ ok m
      → Gathers ids q
      → Gathers (i ∷ ids) (checked (from_listed w p b i m) (behind q))
  hash-Gathers i ids q [] e g = absent-Gathers i ids q (inl e) g
  hash-Gathers i ids q (kv ∷ m) e g = built-Gathers i ids q kv m _ e refl g

  reply-Gathers :
      (i : Bytes) (ids : List Bytes) (q : Result (List (ListedJob T))) (r : Result StringMap)
      → answers i ≡ r
      → Gathers ids q
      → Gathers (i ∷ ids) (checked (read_reply w p b i (hash_answer r)) (behind q))
  reply-Gathers i ids q (ok m) e g = rw (hash_of-hash_reply m) (hash-Gathers i ids q m e g)
  reply-Gathers i ids q (err x) e g = elim (Bool-cases (is_nil x)) [
    | inl t ↦ rw (t) (absent-Gathers i ids q (inr (x, e, t)) g)
    | inr f ↦ rw (f) (inl (inl (x, e, f)))
  ]

  read_replies-Gathers : (ids : List Bytes) → Gathers ids (read_replies w p b (replies ids))
  unfolding read_replies replies
  read_replies-Gathers [] = refl
  read_replies-Gathers (i ∷ ids) =
      reply-Gathers i ids (read_replies w p b (replies ids)) _ refl (read_replies-Gathers ids)

  reply-Broken :
      (i : Bytes) (ids : List Bytes) (x : Failure) (r : Result StringMap)
      → (exec_error (replies ids) ≡ some x → AnyBroken ids)
      → answers i ≡ r
      → is_nil x ≡ false
      → exec_error ((i, hash_answer r) ∷ replies ids) ≡ some x
      → AnyBroken (i ∷ ids)
  reply-Broken i ids x (ok m) later e f g = inr (later g)
  reply-Broken i ids x (err y) later e f g =
      let same : y ≡ x = cc g in inl (inl (y, e, rw (same) f))

  exec_error-Broken :
      (ids : List Bytes) (x : Failure)
      → is_nil x ≡ false
      → exec_error (replies ids) ≡ some x
      → AnyBroken ids
  unfolding replies
  exec_error-Broken [] x f e = cc e
  exec_error-Broken (i ∷ ids) x f e = reply-Broken i ids x _ (exec_error-Broken ids x f) refl f e

  fetched-Gathers :
      (ids : List Bytes) (o : Option Failure)
      → exec_error (replies ids) ≡ o
      → Gathers ids (fetched w p b o (replies ids))
  fetched-Gathers ids none e = read_replies-Gathers ids
  fetched-Gathers ids (some x) e = elim (Bool-cases (is_nil x)) [
    | inl t ↦ rw (t) (read_replies-Gathers ids)
    | inr f ↦ rw (f) (exec_error-Broken ids x f e)
  ]

  module _
      (hashed : (h : History) (i : Bytes)
        → w.redis h (hgetall (Keys.job b i)) ≡ hash_answer (answers i)) where
    piped_lem : (ids : List Bytes) (h : History) → (piped w p b ids h).0 ≡ replies ids
    unfolding replies
    piped_lem [] h = refl
    piped_lem (i ∷ ids) h = rw (hashed h i, piped_lem ids (hgetall (Keys.job b i) ∷ h)) refl

    fetch_jobs-Gathers : (ids : List Bytes) (h : History) → Gathers ids (fetch_jobs w p b ids h).0
    unfolding fetch_jobs
    fetch_jobs-Gathers ids h = rw (piped_lem ids h) (fetched-Gathers ids _ refl)

    fetch_some-Gathers :
        (ascending : Bool) (source : JobBucket) (ids : List Bytes) (h : History)
        → Gathers (ordered w p b ascending source ids) (fetch_some w p b ascending source ids h).0
    fetch_some-Gathers ascending source [] h =
        elim (Bool-cases (ascending && is_list_bucket source)) [
          | inl e ↦ rw (e) refl
          | inr e ↦ rw (e) refl
        ]
    fetch_some-Gathers ascending source (i ∷ ids) h =
        fetch_jobs-Gathers (ordered w p b ascending source (i ∷ ids)) h

    module _ (ascending : Bool) (start stop : ℤ) where
      pub list_source-Gathers :
          (source : JobBucket) (ids : List Bytes) (h : History)
          → w.redis h (ranges_call w p b start stop ascending source) ≡ ok (ids_reply ids)
          → Gathers
              (ordered w p b ascending source ids)
              (list_source w p b start stop ascending (some source) h).0
      unfolding to_string_slice
      list_source-Gathers source ids h e =
          rw (e, elements-values (map (λ s. str s) ids), strings_lem ids)
            (fetch_some-Gathers ascending source ids
              (ranges_call w p b start stop ascending source ∷ h))

      -- For a state other than paused, and a reply of getRanges that names the jobs `ids`, where HGETALL
      -- may give or refuse any job its HASH, but answers the same for a job whenever it is asked: if
      -- ListJobs gives jobs, they are one for each id whose HASH is stored, decoded from it, in the reply's
      -- order, a list's in the opposite order when the oldest job is to come first, and every other id has
      -- no HASH; if it fails, then the HGETALL of one of the jobs has failed or its HASH does not decode.
      pub list_jobs-gathered :
          (bucket : JobBucket) (ids : List Bytes) (h : History)
          → eq_bytes bucket bucket_paused ≡ false
          → w.redis h (ranges_call w p b start stop ascending bucket) ≡ ok (ids_reply ids)
          → Gathers
              (if ascending && is_list_bucket bucket then reverse ids else ids)
              (list_jobs w p b bucket start stop ascending h).0
      unfolding list_jobs
      list_jobs-gathered bucket ids h other e = rw (other) (list_source-Gathers bucket ids h e)
