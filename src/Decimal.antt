-- ===== src/Decimal.antt =====
-- strconv.ParseInt(s, 10, 64), strconv.Atoi and strconv.FormatInt, and worker.go's `parseInt` over the latter.
pub mod RoundTrip
use mkq.Prelude.{
  ℕ, zero, suc, ◌+◌, ◌-◌, ◌*◌, ◌/◌, ◌%◌, ◌^◌, ◌||◌, Bool, true, false, [], ◌∷◌, Bytes, ltb, leb,
  ◌==◌, ℤ, pos, negsuc, sub_ℕ, max_int64, if◌then◌else◌,
}

-- The digits so far, or how the scan stopped.
pub data Scan : Type 0 where
  done : ℕ → Scan
  syntax : Scan
  range : Scan

abbrev pub max_uint64 : ℕ
max_uint64 = 2 ^ 64 - 1

-- The loop of strconv.ParseUint in base 10: it stops at the first byte that is no digit and at the
-- first digit that takes the value past a uint64.
unfoldable pub scan : Bytes → ℕ → Scan
scan [] n = done n
scan (c ∷ s) n =
    let rest = scan s (n * 10 + (c - b'0')) in
    if ltb c b'0' || ltb b'9' c
    then syntax
    else if ltb max_uint64 (n * 10 + (c - b'0'))
    then range
    else rest

unfoldable pub parse_uint : Bytes → Scan
unfolding scan
parse_uint [] = syntax
parse_uint (c ∷ s) = scan (c ∷ s) 0

-- The value, and whether the error is nil. Out of range the value is the nearest int64.
abbrev pub positive : Scan → ℤ × Bool
positive (done n) = if leb n max_int64 then (pos n, true) else (pos max_int64, false)
positive syntax = (pos 0, false)
positive range = (pos max_int64, false)

abbrev pub negative : Scan → ℤ × Bool
negative (done n) = if leb n (max_int64 + 1) then (sub_ℕ 0 n, true) else (negsuc max_int64, false)
negative syntax = (pos 0, false)
negative range = (negsuc max_int64, false)

unfoldable pub parse_int64 : Bytes → ℤ × Bool
unfolding parse_uint
parse_int64 [] = (pos 0, false)
parse_int64 (c ∷ s) =
    if c == b'-'
    then negative (parse_uint s)
    else if c == b'+'
    then positive (parse_uint s)
    else positive (parse_uint (c ∷ s))

-- worker.go `parseInt`: 0 for an empty text and for any error.
unfoldable pub parse_int : Bytes → ℤ
unfolding parse_int64
parse_int s = let (n, fine) = parse_int64 s in if fine then n else pos 0

-- The loop of strconv.FormatInt; twenty digits are enough for every 64-bit number.
unfoldable pub digits : ℕ → ℕ → Bytes → Bytes
digits zero n out = out
digits (suc f) n out =
    let more = digits f (n / 10) ((b'0' + n % 10) ∷ out) in if n == 0 then out else more

unfoldable pub show_nat : ℕ → Bytes
unfolding digits
show_nat n = if n == 0 then b'0' ∷ [] else digits 20 n []

unfoldable pub show_int : ℤ → Bytes
unfolding show_nat
show_int (pos n) = show_nat n
show_int (negsuc n) = b'-' ∷ show_nat (suc n)
