-- ===== src/Tests/Registry.antt =====
-- A Redis server that keeps sets, as the calls so far tell.
use mkq.Prelude.{
  true, List, [], ◌∷◌, ◌||◌, Bytes, codes, eq_bytes, eq_bytes_refl, ℤ, pos, ◌≡◌, refl, ap, map,
  if◌then◌else◌,
}
use mkq.Lua.Preprocess.{member}
use mkq.Redis.{Value, nil, str, arr, values, sadd, smembers, Call, History, World, Result, ok}
use mkq.Client.{members_of, queues}
use mkq.Queue.Define.{Sets, define_all, registered, queues-define_all}
use mkq.Tests.Setup.{open_world}

abbrev one_page : Value → List Bytes × ℤ
one_page v = ([], pos 0)

abbrev members : History → Bytes → List Bytes
members [] k = []
members (sadd k x ∷ h) s = let rest = members h s in if eq_bytes k s then x ∷ rest else rest
members (c ∷ h) s = members h s

abbrev answer : History → Call → Result Value
answer h (smembers k) = ok (arr (values (map (λ s. str s) (members h k))))
answer h c = ok nil

abbrev keeping_sets : World
keeping_sets = record open_world { redis = answer }

abbrev bull : Bytes
bull = codes "bull"

read_back :
    (l : List Bytes) → members_of keeping_sets one_page bull (arr (values (map (λ s. str s) l))) ≡ l
read_back [] = refl
read_back (s ∷ l) = ap (λ r. s ∷ r) (read_back l)

abbrev sets : Sets keeping_sets one_page bull
sets = record {
  holds = λ h k y. member y (members h k);
  added = λ h k x y. rw (eq_bytes_refl k) refl;
  untouched = λ h k f v s y. refl;
  lists = λ h k. (
    arr (values (map (λ s. str s) (members h k))),
    refl,
    λ y. ap (λ l. member y l) (read_back (members h k)),
  );
}

queues-define_all_example :
    (l : List Bytes) × ((queues keeping_sets one_page bull
        (define_all bull (codes "mail" ∷ codes "push" ∷ codes "mail" ∷ []) [])).0
      ≡ ok l)
    × (member (codes "push") l
        ≡ (true || registered keeping_sets one_page bull sets [] (codes "push")))
queues-define_all_example =
    queues-define_all keeping_sets one_page bull sets
      (codes "mail" ∷ codes "push" ∷ codes "mail" ∷ []) [] (codes "push")
