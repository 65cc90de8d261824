-- ===== src/Tests/Pools.antt =====
-- An encoder that writes two bytes, and a pool with one pair.
use mkq.Prelude.{[], ◌∷◌, ◌++◌, ◌≡◌, refl, ap, arith, some, codes, All}
use mkq.Redis.{Result, ok}
use mkq.Proto.Pool.{EncoderLib, PooledEncoder, Pool, snapshot, encode_msgpack}
use mkq.Proto.Pool.Fresh.{IsClean, encode_msgpack-fresh}

abbrev lib : EncoderLib
lib = record { Encoder = Unit; blank = tt; grown = 256 }

abbrev write_ok : PooledEncoder lib → Result (Unit {0}) × PooledEncoder lib
write_ok p = (ok tt, record p { buf = p.buf ++ codes "ok" })

abbrev one_pair : Pool lib
one_pair = record { buf = []; cap = 512; enc = tt } ∷ []

encode_msgpack-fresh_example :
    ((encode_msgpack lib write_ok (some 0) (λ p. p) one_pair).0 ≡ snapshot lib (ok tt) (codes "ok"))
    × All (IsClean lib) (encode_msgpack lib write_ok (some 0) (λ p. p) one_pair).1
encode_msgpack-fresh_example =
    encode_msgpack-fresh lib write_ok (some 0) (λ p. p) one_pair
      (λ p q bufs encs. (refl, ap (λ b. b ++ codes "ok") bufs)) (λ rest clean. clean)
      ((refl, refl, omega arith), tt)
