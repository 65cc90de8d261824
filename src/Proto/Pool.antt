-- ===== src/Proto/Pool.antt =====
-- internal/proto/pool.go: the pool of encoders behind the encodings of the dispatch loop. The msgpack
-- encoder, the growth of a buffer and the choice of a pooled pair are parameters.
pub mod Fresh
use mkq.Prelude.{
  ℕ, zero, suc, List, [], ◌∷◌, ◌++◌, Option, none, some, Bytes, Bool, ltb, if◌then◌else◌,
}
use mkq.Redis.{Result, ok, err}

-- `Encoder` is the encoder's internal state, which `blank` is in behind `NewEncoder` and behind `Reset`;
-- `grown` is the capacity of a new buffer behind `Grow(256)`.
pub record EncoderLib : Type 1 where
  pub Encoder : Type 0
  pub blank : Encoder
  pub grown : ℕ

pub record PooledEncoder (lib : EncoderLib) : Type 0 where
  pub buf : Bytes
  pub cap : ℕ
  pub enc : lib.Encoder

abbrev pub shrink_cap : ℕ
shrink_cap = 4096

module _ (lib : EncoderLib) where
  abbrev pub Pool : Type 0
  Pool = List (PooledEncoder lib)

  abbrev pub fresh : PooledEncoder lib
  fresh = record { buf = []; cap = lib.grown; enc = lib.blank }

  -- `Get` takes any pair of the pool, or none of them although there are some.
  abbrev pub get : Option ℕ → Pool → PooledEncoder lib × Pool
  get none pool = (fresh, pool)
  get (some i) [] = (fresh, [])
  get (some zero) (p ∷ pool) = (p, pool)
  get (some (suc i)) (p ∷ pool) = let (q, rest) = get (some i) pool in (q, p ∷ rest)

  -- The deferred part, which runs on an error too.
  unfoldable pub give_back : PooledEncoder lib → Pool → Pool
  give_back p pool =
      if ltb shrink_cap p.cap then pool else (record p { buf = []; enc = lib.blank }) ∷ pool

  abbrev pub snapshot : Result (Unit {0}) → Bytes → Result Bytes
  snapshot (ok u) buf = ok buf
  snapshot (err e) buf = err e

  -- `fn` writes to the pair that it is given; `others` is what other goroutines make of the pool until
  -- the pair is given back.
  unfoldable pub encode_msgpack :
      (PooledEncoder lib → Result (Unit {0}) × PooledEncoder lib)
      → Option ℕ
      → (Pool → Pool)
      → Pool
      → Result Bytes × Pool
  encode_msgpack fn choice others pool =
      let (p, rest) = get choice pool in
      let (r, q) = fn p in (snapshot r q.buf, give_back q (others rest))
