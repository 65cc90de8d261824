-- ===== src/Tests/Inspect.antt =====
-- A queue that an operator has paused, with two waiting jobs.
use mkq.Prelude.{
  true, List, [], ◌∷◌, map, Bytes, codes, eq_bytes, StringMap, pos, negsuc, ◌≡◌, refl, length,
  if◌then◌else◌, reverse, ◌&&◌, ◌||◌, All, Bool-cases, inl, inr,
}
use mkq.Keys
use mkq.Keys.{Builder}
use mkq.Redis.{
  Value, nil, int, arr, values, Arg, text, number, Call, eval, hexists, hgetall, llen, World,
  History, Result, ok,
}
use mkq.Redis.Scripts.{get_counts, get_ranges}
use mkq.Job.{Payload, build_job}
use mkq.Inspector.Counts.{
  JobBucket, QueueCounts, bucket_wait, bucket_paused, bucket_delayed, counts, requested,
  counts_call,
}
use mkq.Inspector.Counts.Loop.{sizes_reply}
use mkq.Inspector.Counts.Snapshot.{snapshot, counts-snapshot}
use mkq.Inspector.Listing.{ListedJob, list_jobs, is_list_bucket}
use mkq.Inspector.Listing.Order.{hash_answer, ids_reply, Lists, Gathers, list_jobs-gathered}
use mkq.Inspector.Listing.Paused.{IsStored, list_jobs-counts, held_back}
use mkq.Tests.Setup.{open_world, worker}

abbrev plain_text : Payload Bytes
plain_text = record { blank = []; unmarshal = λ s. ok s }

abbrev here : Builder
here = worker.keys

abbrev a_job : StringMap
a_job = (codes "name", codes "send") ∷ []

-- The HASHes of the jobs 1 and 2; there are no others.
abbrev stored_at : Bytes → Result StringMap
stored_at key =
    if eq_bytes key (Keys.job here (codes "1")) || eq_bytes key (Keys.job here (codes "2"))
    then ok a_job
    else ok []

abbrev stored : Bytes → Result StringMap
stored i = stored_at (Keys.job here i)

abbrev three : List Bytes
three = codes "3" ∷ codes "2" ∷ codes "1" ∷ []

abbrev contents : JobBucket → List Bytes
contents s = if eq_bytes s bucket_wait then codes "2" ∷ codes "1" ∷ [] else []

abbrev size_of : Arg → Value
size_of (text s) = int (pos (length (contents s)))
size_of (number n) = nil

abbrev ids_for : List Arg → Value
ids_for (a ∷ b ∷ c ∷ text s ∷ r) = ids_reply (contents s)
ids_for r = nil

abbrev reply : Call → Result Value
reply (eval get_counts keys args) = ok (arr (values (map size_of args)))
reply (eval get_ranges keys args) = ok (ids_for args)
reply (hexists key field) = ok (int (pos 1))
reply (hgetall key) = hash_answer (stored_at key)
reply (llen key) = ok (int (pos 0))
reply _ = ok nil

abbrev inspected : World
inspected = record open_world { redis = λ h c. reply c }

map-sizes :
    (bs : List JobBucket)
    → map size_of (map (λ s. text s) bs) ≡ sizes_reply (λ s. pos (length (contents s))) bs
map-sizes [] = refl
map-sizes (b ∷ bs) = rw (map-sizes bs) refl

hashed :
    (h : History) (i : Bytes)
    → inspected.redis h (hgetall (Keys.job here i)) ≡ hash_answer (stored i)
hashed h i = refl

alive : (s : JobBucket) → All (IsStored inspected plain_text here stored contents true) (contents s)
unfolding build_job Keys.job Keys.base
alive s = elim (Bool-cases (eq_bytes s bucket_wait)) [
  | inl e ↦ rw (e) ((_, (_, _, refl, refl, refl)), ((_, (_, _, refl, refl, refl)), tt))
  | inr e ↦ rw (e) tt
]

counting :
    (h : History) (bs : List JobBucket)
    → inspected.redis h (counts_call inspected here bs)
      ≡ ok (arr (values (sizes_reply (λ s. pos (length (contents s))) bs)))
counting h bs = rw (map-sizes bs) refl

counts-snapshot_example :
    (counts inspected here (bucket_paused ∷ bucket_delayed ∷ []) []).0
    ≡ ok (
        snapshot
          (λ s. pos (length (contents s)))
          true
          (requested (bucket_paused ∷ bucket_delayed ∷ [])))
counts-snapshot_example =
    counts-snapshot inspected here (λ s. pos (length (contents s))) true counting (λ h. refl)
      (bucket_paused ∷ bucket_delayed ∷ []) []

-- The wait list still names a job 3, which is gone.
abbrev reply_three : Call → Result Value
reply_three (eval get_ranges keys args) = ok (ids_reply three)
reply_three c = reply c

abbrev one_gone : World
one_gone = record open_world { redis = λ h c. reply_three c }

list_jobs-gathered_example :
    Gathers one_gone plain_text here stored
      (if true && is_list_bucket bucket_wait then reverse three else three)
      (list_jobs one_gone plain_text here bucket_wait (pos 0) (pos 9) true []).0
list_jobs-gathered_example =
    list_jobs-gathered one_gone plain_text here stored (λ h i. refl) true (pos 0) (pos 9)
      bucket_wait three [] refl refl

list_jobs-counts_example :
    let held = held_back inspected plain_text here stored contents true in
    (jobs_listed : List (ListedJob Bytes)) × (c : QueueCounts) × ((list_jobs inspected plain_text
        here bucket_paused
        (pos 0)
        (negsuc 0)
        true
        []).0
      ≡ ok jobs_listed)
    × Lists inspected plain_text here stored (if true then reverse held else held) jobs_listed
    × ((counts inspected here [] []).0 ≡ ok c)
    × (c.paused ≡ pos (length jobs_listed))
list_jobs-counts_example =
    list_jobs-counts inspected plain_text here stored contents true hashed alive counting
      (λ h. refl) (λ h. refl) (λ h ascending s e. refl) true [] []
