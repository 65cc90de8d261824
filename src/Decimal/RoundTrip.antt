-- ===== src/Decimal/RoundTrip.antt =====
-- strconv: what FormatInt writes is what ParseInt reads.
use mkq.Prelude.{
  ℕ, zero, suc, ◌+◌, ◌-◌, ◌*◌, ◌/◌, ◌%◌, ◌^◌, ◌≤◌, ◌<◌, ◌||◌, true, false, [], ◌∷◌, Bytes, ltb, leb,
  ◌==◌, ℤ, pos, negsuc, ◌≤ℤ◌, sub_ℕ, max_int64, Bool-cases, ◌≡◌, refl, ◌∙◌, inl, inr, ◌⊎◌, arith,
}
use mkq.Decimal.{
  scan, done, max_uint64, parse_uint, positive, parse_int64, digits, show_nat, show_int,
}

digit-IsDigit : (n : ℕ) → (ltb (48 + n % 10) 48 || ltb 57 (48 + n % 10)) ≡ false
digit-IsDigit n = ground arith

scan_digit : (n : ℕ) (s : Bytes) → n ≤ max_uint64 → scan ((48 + n % 10) ∷ s) (n / 10) ≡ scan s n
unfolding scan
scan_digit n s h =
    let value : n / 10 * 10 + (48 + n % 10 - 48) ≡ n = omega arith in
    let small : ltb max_uint64 n ≡ false = ground (arith, h) in
    rw (digit-IsDigit n, value, small) refl

scan-digits : (f n : ℕ) (s : Bytes) → n < 10 ^ f → n ≤ max_uint64 → scan (digits f n s) 0 ≡ scan s n
unfolding digits
scan-digits zero n s h g = let z : n ≡ 0 = omega (arith, h) in rw (z) refl
scan-digits (suc f) n s h g = elim (Bool-cases (n == 0)) [
  | inl e ↦ let z : n ≡ 0 = ground (arith, e) in rw (e, z) refl
  | inr e ↦ rw (e) (
      scan-digits f (n / 10) ((48 + n % 10) ∷ s) (omega (arith, h)) (omega (arith, g))
      ∙ scan_digit n s g)
]

-- A text that begins with a digit.
abbrev Starts : Bytes → Type 0
Starts [] = 0 < 0
Starts (c ∷ s) = 48 ≤ c

no_digit : ¬ (0 < 0)
no_digit h = omega (arith, h)

digits-Starts : (f n : ℕ) (s : Bytes) → Starts s → Starts (digits f n s)
unfolding digits
digits-Starts zero n s h = h
digits-Starts (suc f) n s h = elim (Bool-cases (n == 0)) [
  | inl e ↦ rw (e) h
  | inr e ↦ rw (e) (digits-Starts f (n / 10) ((48 + n % 10) ∷ s) (omega arith))
]

zero_or_not : (n : ℕ) → (n ≡ 0) ⊎ ((n == 0) ≡ false)
zero_or_not zero = inl refl
zero_or_not (suc n) = inr (ground arith)

show_nat-digits : (n : ℕ) → (n == 0) ≡ false → show_nat n ≡ digits 20 n []
unfolding show_nat
show_nat-digits n e = rw (e) refl

digits_step :
    (f n : ℕ) (s : Bytes)
    → (n == 0) ≡ false
    → digits (suc f) n s ≡ digits f (n / 10) ((48 + n % 10) ∷ s)
unfolding digits
digits_step f n s e = rw (e) refl

zero-Starts : Starts (show_nat 0)
unfolding show_nat
zero-Starts = omega arith

scan-show_nat_zero : scan (show_nat 0) 0 ≡ done 0
unfolding show_nat scan
scan-show_nat_zero = refl

scan_end : (n : ℕ) → scan [] n ≡ done n
unfolding scan
scan_end n = refl

show_nat-Starts : (n : ℕ) → Starts (show_nat n)
show_nat-Starts n = elim (zero_or_not n) [
  | inl e ↦ rw (e) zero-Starts
  | inr e ↦
      rw (show_nat-digits n e, digits_step 19 n [] e)
        (digits-Starts 19 (n / 10) ((48 + n % 10) ∷ []) (omega arith))
]

scan-show_nat : (n : ℕ) → n ≤ max_uint64 → scan (show_nat n) 0 ≡ done n
scan-show_nat n h = elim (zero_or_not n) [
  | inl e ↦ rw (e) scan-show_nat_zero
  | inr e ↦ rw (show_nat-digits n e) (scan-digits 20 n [] (omega (arith, h)) h ∙ scan_end n)
]

parse_uint_text : (s : Bytes) → Starts s → parse_uint s ≡ scan s 0
unfolding parse_uint
parse_uint_text [] h = elim (no_digit h) [ ]
parse_uint_text (c ∷ s) h = refl

parse_int64_text : (s : Bytes) → Starts s → parse_int64 s ≡ positive (parse_uint s)
unfolding parse_int64
parse_int64_text [] h = elim (no_digit h) [ ]
parse_int64_text (c ∷ s) h =
    let minus : (c == b'-') ≡ false = ground (arith, h) in
    let plus : (c == b'+') ≡ false = ground (arith, h) in rw (minus, plus) refl

sub_zero : (n : ℕ) → sub_ℕ 0 (suc n) ≡ negsuc n
sub_zero n =
    let test : leb (suc n) 0 ≡ false = ground arith in
    let value : suc n - 0 - 1 ≡ n = omega arith in rw (test, value) refl

-- Whatever int64 is written comes back.
pub parse_int64-show_int :
    (n : ℤ) → negsuc max_int64 ≤ℤ n → n ≤ℤ pos max_int64 → parse_int64 (show_int n) ≡ (n, true)
unfolding show_int parse_int64
parse_int64-show_int (pos n) l h =
    let small : leb n max_int64 ≡ true = ground (arith, h) in
    let text_IsDigit : Starts (show_nat n) = show_nat-Starts n in
    rw
      (
        parse_int64_text (show_nat n) text_IsDigit,
        parse_uint_text (show_nat n) text_IsDigit,
        scan-show_nat n (omega (arith, h)),
        small,
      )
      refl
parse_int64-show_int (negsuc n) l h =
    let small : leb (suc n) (max_int64 + 1) ≡ true = ground (arith, l) in
    rw
      (
        parse_uint_text (show_nat (suc n)) (show_nat-Starts (suc n)),
        scan-show_nat (suc n) (omega (arith, l)),
        small,
      )
      (rw (sub_zero n) refl)
