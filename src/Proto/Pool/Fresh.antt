-- ===== src/Proto/Pool/Fresh.antt =====
-- internal/proto/pool.go: a pooled encoder writes what a new one writes.
use mkq.Prelude.{
  ℕ, zero, suc, ◌≤◌, [], ◌∷◌, Option, none, some, All, ◌≡◌, refl, Bool-cases, inl, inr, arith, ltb,
}
use mkq.Redis.{Result}
use mkq.Proto.Pool.{
  EncoderLib, PooledEncoder, Pool, shrink_cap, fresh, get, give_back, snapshot, encode_msgpack,
}

module _ (lib : EncoderLib) where
  -- Nothing is left in the pair from an earlier encoding.
  abbrev pub Blank : PooledEncoder lib → Type 0
  Blank p = (p.buf ≡ []) × (p.enc ≡ lib.blank)

  -- A pooled pair, which is not larger than the pool keeps.
  abbrev pub IsClean : PooledEncoder lib → Type 0
  IsClean p = (p.buf ≡ []) × (p.enc ≡ lib.blank) × (p.cap ≤ shrink_cap)

  get-IsClean :
      (c : Option ℕ) (pool : Pool lib)
      → All IsClean pool
      → Blank (get lib c pool).0 × All IsClean (get lib c pool).1
  get-IsClean none pool clean = ((refl, refl), clean)
  get-IsClean (some i) [] clean = ((refl, refl), tt)
  get-IsClean (some zero) (p ∷ pool) (here, clean) = ((here.0, here.1), clean)
  get-IsClean (some (suc i)) (p ∷ pool) (here, clean) =
      let (blank, rest) = get-IsClean (some i) pool clean in (blank, (here, rest))

  give_back-IsClean :
      (p : PooledEncoder lib) (pool : Pool lib)
      → All IsClean pool
      → All IsClean (give_back lib p pool)
  unfolding give_back
  give_back-IsClean p pool clean = elim (Bool-cases (ltb shrink_cap p.cap)) [
    | inl large ↦ rw (large) clean
    | inr small ↦ rw (small) ((refl, refl, ground arith), clean)
  ]

  -- If what an encoding writes and whether it fails do not depend on the capacity of its buffer, and
  -- other goroutines leave clean pairs in the pool, then from a pool of clean pairs, whichever of them is
  -- taken and also if none is, the result is that of a new encoder, and every pair in the pool afterwards
  -- is clean: an empty buffer of at most 4096 bytes and an encoder as good as new, also behind an error.
  pub encode_msgpack-fresh :
      (fn : PooledEncoder lib → Result (Unit {0}) × PooledEncoder lib) (choice : Option ℕ)
      (others : Pool lib → Pool lib) (pool : Pool lib)
      → ((p q : PooledEncoder lib)
          → p.buf ≡ q.buf
          → p.enc ≡ q.enc
          → ((fn p).0 ≡ (fn q).0) × ((fn p).1.buf ≡ (fn q).1.buf))
      → ((rest : Pool lib) → All IsClean rest → All IsClean (others rest))
      → All IsClean pool
      → ((encode_msgpack lib fn choice others pool).0
          ≡ snapshot lib (fn (fresh lib)).0 (fn (fresh lib)).1.buf)
        × All IsClean (encode_msgpack lib fn choice others pool).1
  unfolding encode_msgpack
  encode_msgpack-fresh fn choice others pool same keep clean =
      let (blank, rest) = get-IsClean choice pool clean in
      let (fails, writes) = same (get lib choice pool).0 (fresh lib) blank.0 blank.1 in
      (rw (fails, writes) refl, give_back-IsClean _ _ (keep _ rest))
