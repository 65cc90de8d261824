-- ===== src/Tests/Discovery.antt =====
-- A Redis with two queues and a job whose id looks like a queue's metadata, found in two SCANs.
use mkq.Prelude.{
  true, not, ◌&&◌, List, [], ◌∷◌, Bytes, codes, is_empty, eq_bytes, ℤ, pos, ◌==◌, ◌≡◌, refl,
  if◌then◌else◌,
}
use mkq.Failure.{Failure, redis_error}
use mkq.Lua.Preprocess.{member}
use mkq.Redis.{Value, nil, other, str, int, arr, values, Call, scan, hmget, World, Result, ok, err}
use mkq.Client.{listed, discover_count, default_discover_count, discover_queues, is_wrong_type}
use mkq.Client.Names.{meta_key, Ordered, Distinct}
use mkq.Client.Discover.{last, more, master, no_more, marked, discover_queues-lists}
use mkq.Tests.Setup.{open_world}

abbrev bull : Bytes
bull = codes "bull"

abbrev texts : List Bytes
texts = codes "sms" ∷ codes "mail:1" ∷ codes "mail" ∷ codes "push" ∷ []

abbrev second_page : ℤ
second_page = pos 7

-- The page that a reply stands for.
abbrev page : Value → List Bytes × ℤ
page (int n) = (meta_key bull (codes "sms") ∷ [], second_page)
page other = (meta_key bull (codes "push") ∷ [], pos 0)
page v = (meta_key bull (codes "mail:1") ∷ meta_key bull (codes "mail") ∷ [], pos 0)

abbrev reply : Bytes → Result Value
reply k =
    if eq_bytes k (meta_key bull (codes "mail:1"))
    then err (redis_error (codes "WRONGTYPE"))
    else ok (arr (values (str (codes "mkq") ∷ nil ∷ nil ∷ [])))

abbrev answer : Call → Result Value
answer (scan (pos n) pattern count) = if n == 0 then ok (int (pos 0)) else ok nil
answer (hmget k fields) = reply k
answer _ = ok nil

abbrev scanned : World
scanned = record open_world { redis = λ h c. answer c; error_text = λ e. codes "WRONGTYPE" }

-- The second master of a cluster.
abbrev second_master : World
second_master = record scanned { redis = λ h c. ok other }

abbrev first_pages : List Bytes
first_pages =
    meta_key bull (codes "sms") ∷ meta_key bull (codes "mail:1") ∷ meta_key bull (codes "mail") ∷ []

wrong_types : (k : Bytes) (e : Failure) → reply k ≡ err e → is_wrong_type scanned page bull e ≡ true
unfolding is_wrong_type
wrong_types k e h = refl

default_count : discover_count [] default_discover_count ≡ pos 100
unfolding discover_count
default_count = refl

discover_queues-lists_example :
    (names : List Bytes) × (discover_queues scanned page bull (scanned ∷ second_master ∷ []) 2 [] []
      ≡ listed names)
    × Ordered names
    × Distinct names
    × ((q : Bytes)
        → member q names ≡ (
            member q texts
            && marked scanned page bull (pos 100) reply (λ h k. refl) wrong_types q
            && not (is_empty q)))
discover_queues-lists_example =
    discover_queues-lists scanned page bull (pos 100) reply (λ h k. refl) wrong_types 2
      (scanned ∷ second_master ∷ []) [] texts [] _ default_count
      (master scanned (second_master ∷ []) [] _ _ first_pages (meta_key bull (codes "push") ∷ [])
        (more 1 (pos 0) [] _ (int (pos 0)) (meta_key bull (codes "sms") ∷ [])
          (meta_key bull (codes "mail:1") ∷ meta_key bull (codes "mail") ∷ []) 6 refl refl
          (last 0 (pos 7) _ _ nil
            (meta_key bull (codes "mail:1") ∷ meta_key bull (codes "mail") ∷ []) refl refl refl))
        (master second_master [] _ _ _ (meta_key bull (codes "push") ∷ []) []
          (last 1 (pos 0) _ _ other (meta_key bull (codes "push") ∷ []) refl refl refl)
          (no_more _)))
