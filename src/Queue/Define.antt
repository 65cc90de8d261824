-- ===== src/Queue/Define.antt =====
-- queue.go `Define` and `bootstrap`, with mkq.go `Queues` behind them.
use mkq.Prelude.{Bool, true, false, ◌||◌, List, [], ◌∷◌, Bytes, codes, ℤ, eq_bytes, ◌≡◌, refl, ◌∙◌}
use mkq.Keys
use mkq.Keys.{Builder}
use mkq.Lua.Preprocess.{member}
use mkq.Redis.{Value, hsetnx, sadd, smembers, World, Effect, History, ok}
use mkq.Client.{queue_registry_key, members_of, queues}

-- version.go.
abbrev pub version_tag : Bytes
version_tag = codes "mkq:1.5.1"

-- One pipeline, whose errors are dropped.
unfoldable pub bootstrap : Bytes → Builder → Bytes → Effect
bootstrap key_prefix b name h =
    sadd (queue_registry_key key_prefix) name
    ∷ hsetnx (Keys.slot b Keys.meta) (codes "version") version_tag
    ∷ h

unfoldable pub define : Bytes → Bytes → History → Builder × History
unfolding bootstrap
define key_prefix name h = let b = Keys.new key_prefix name in (b, bootstrap key_prefix b name h)

-- One queue after another.
unfoldable pub define_all : Bytes → List Bytes → Effect
unfolding define
define_all key_prefix [] h = h
define_all key_prefix (name ∷ names) h = define_all key_prefix names (define key_prefix name h).1

-- What Redis documents of sets: SADD adds a member to the set at its key, HSETNX touches no set, and
-- SMEMBERS lists the members.
pub record Sets (w : World) (page : Value → List Bytes × ℤ) (key_prefix : Bytes) : Type 0 where
  pub holds : History → Bytes → Bytes → Bool
  pub added :
      (h : History) (k x y : Bytes) → holds (sadd k x ∷ h) k y ≡ (eq_bytes y x || holds h k y)
  pub untouched : (h : History) (k f v s y : Bytes) → holds (hsetnx k f v ∷ h) s y ≡ holds h s y
  pub lists :
      (h : History) (k : Bytes)
      → (v : Value) × (w.redis h (smembers k) ≡ ok v)
        × ((y : Bytes) → member y (members_of w page key_prefix v) ≡ holds h k y)

swap_or : (a b c : Bool) → (a || (b || c)) ≡ ((b || a) || c)
swap_or true true c = refl
swap_or true false c = refl
swap_or false true c = refl
swap_or false false c = refl

module _ (w : World) (page : Value → List Bytes × ℤ) (key_prefix : Bytes)
    (s : Sets w page key_prefix) where
  abbrev pub registered : History → Bytes → Bool
  registered h y = s.holds h (queue_registry_key key_prefix) y

  registered-define :
      (name : Bytes) (h : History) (y : Bytes)
      → registered (define key_prefix name h).1 y ≡ (eq_bytes y name || registered h y)
  unfolding define bootstrap
  registered-define name h y = rw (s.added, s.untouched) refl

  registered-define_all :
      (names : List Bytes) (h : History) (y : Bytes)
      → registered (define_all key_prefix names h) y ≡ (member y names || registered h y)
  unfolding define_all
  registered-define_all [] h y = refl
  registered-define_all (name ∷ names) h y =
      registered-define_all names (define key_prefix name h).1 y
      ∙ rw (registered-define name h y)
          (swap_or (member y names) (eq_bytes y name) (registered h y))

  -- If Redis keeps sets as it documents and the pipelines of `Define`, whose errors are dropped, reach it,
  -- then behind `Define` for any names, in any order and also twice
  -- for one of them, `Queues` succeeds and lists exactly those names and the ones that were in the
  -- registry before.
  pub queues-define_all :
      (names : List Bytes) (h : History) (y : Bytes)
      → (l : List Bytes) × ((queues w page key_prefix (define_all key_prefix names h)).0 ≡ ok l)
        × (member y l ≡ (member y names || registered h y))
  unfolding queues queue_registry_key
  queues-define_all names h y =
      let (v, answer, same) =
        s.lists (define_all key_prefix names h) (queue_registry_key key_prefix) in
      (members_of w page key_prefix v, rw (answer) refl, same y ∙ registered-define_all names h y)
