-- ===== src/Backoff/Bounds.antt =====
-- What the built-in delays of backoff.go are.
use native.Mathlib.Nat.{pow-le-pow_right, one-le-pow, div-lt_iff_lt-mul}
use mkq.Prelude.{
  ℕ, zero, suc, some, ◌*◌, ◌/◌, ◌^◌, ◌≤◌, ◌<◌, min, ◌≡◌, ◌↔◌, inl, inr, Bool-cases, true, arith,
  leb, ltb, pos, ltb_ℤ, max_int64, ◌*ℤ◌, wrap64, if◌then◌else◌,
}
use mkq.Backoff.{BackoffStrategy, exponential, compute_backoff_delay, exponential_delay}

two_pow_pos : (n : ℕ) → 0 < 2 ^ n
two_pow_pos n = one-le-pow n 2 (omega arith)

two_pow_large : (n : ℕ) → 63 ≤ n → 2 ^ 63 ≤ 2 ^ n
two_pow_large n h = pow-le-pow_right {n = 2} (omega arith) h

le-mul_pow : (d n : ℕ) → 0 < d → 2 ^ n ≤ d * 2 ^ n
le-mul_pow d n h = grind arith

-- The test before the multiplication is exact: it fires just when the product is too large.
overflow_iff : (d p : ℕ) → 0 < p → (max_int64 / p < d) ↔ (max_int64 < d * p)
overflow_iff d p h = div-lt_iff_lt-mul h

saturated :
    (d p : ℕ)
    → 0 < p
    → (if ltb_ℤ (pos (max_int64 / p)) (pos d) then pos max_int64 else wrap64 (pos d *ℤ pos p))
      ≡ pos (min (d * p) max_int64)
saturated d p h = ground (arith, overflow_iff d p h)

-- A positive base delay is doubled at each attempt, exactly, and stops at the largest int64.
exponential_delay-pos :
    (d n : ℕ) → 0 < d → exponential_delay (pos d) n ≡ pos (min (d * 2 ^ n) max_int64)
unfolding exponential_delay
exponential_delay-pos d n h = elim (Bool-cases (leb 63 n)) [
  | inl big ↦ rw big (ground (arith, two_pow_large n, le-mul_pow d n h))
  | inr small ↦ rw small (saturated d (2 ^ n) (two_pow_pos n))
]

doubling :
    (b : BackoffStrategy) (d n : ℕ)
    → b.kind ≡ exponential
    → b.delay ≡ pos d
    → 0 < d
    → compute_backoff_delay (some b) (pos (suc n)) ≡ pos (min (d * 2 ^ n) max_int64)
unfolding compute_backoff_delay
doubling b d n hk hd h = rw (hk, hd) (ground (arith, exponential_delay-pos d n h))

without_base :
    (b : BackoffStrategy) (n : ℕ)
    → b.kind ≡ exponential
    → b.delay ≡ pos 0
    → compute_backoff_delay (some b) (pos (suc n)) ≡ pos (if ltb (suc n) 64 then 0 else max_int64)
unfolding compute_backoff_delay exponential_delay
without_base b n hk hd = rw (hk, hd) (ground arith)

-- An exponential backoff with a positive base delay waits delay * 2 ^ (n - 1) before attempt n, exactly,
-- and the largest int64 once that is passed: the product never wraps. The shift test comes before the
-- delay is looked at, so with a base delay of 0 there is no wait up to attempt 63, and the largest int64
-- from attempt 64 on.
pub compute_backoff_delay-exponential :
    (b : BackoffStrategy) (d n : ℕ)
    → b.kind ≡ exponential
    → b.delay ≡ pos d
    → compute_backoff_delay (some b) (pos (suc n))
      ≡ pos (if ltb 0 d then min (d * 2 ^ n) max_int64 else if ltb (suc n) 64 then 0 else max_int64)
compute_backoff_delay-exponential b zero n hk hd = without_base b n hk hd
compute_backoff_delay-exponential b (suc d) n hk hd =
    let positive : ltb 0 (suc d) ≡ true = ground arith in
    rw (positive) (doubling b (suc d) n hk hd (omega arith))
