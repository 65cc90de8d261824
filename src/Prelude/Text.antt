-- ===== src/Prelude/Text.antt =====
-- Go strings as lists of bytes, their comparison, and association lists keyed by them.
use Prim.Native.Nat.{ℕ}
use Prim.Native.Char.{code}
use Prim.Native.String.{String}
use mathlib.Core.Path.{◌≡◌, refl}
use mathlib.Core.Bool.{Bool, true, false, ◌&&◌}
use mathlib.Core.Option.{Option, none, some}
use mathlib.Core.List.{List, [], ◌∷◌}
use native.Mathlib.Omega.{arith}
use mkq.Prelude.Tests.{◌==◌, if◌then◌else◌}

abbrev pub Bytes : Type 0
Bytes = List ℕ

-- The bytes of an ASCII literal.
abbrev pub codes : String → Bytes
codes String.[] = []
codes (String.◌∷◌ c s) = code c ∷ codes s

abbrev pub eq_bytes : Bytes → Bytes → Bool
eq_bytes [] [] = true
eq_bytes [] (y ∷ ys) = false
eq_bytes (x ∷ xs) [] = false
eq_bytes (x ∷ xs) (y ∷ ys) = x == y && eq_bytes xs ys

pub eq_bytes_refl : (s : Bytes) → eq_bytes s s ≡ true
eq_bytes_refl [] = refl
eq_bytes_refl (x ∷ xs) = ground (arith, eq_bytes_refl xs)

pub eq_bytes_sound : (s t : Bytes) → eq_bytes s t ≡ true → s ≡ t
eq_bytes_sound [] [] h = refl
eq_bytes_sound [] (y ∷ ys) h = cc
eq_bytes_sound (x ∷ xs) [] h = cc
eq_bytes_sound (x ∷ xs) (y ∷ ys) h = ground (arith, eq_bytes_sound xs ys)

abbrev pub is_empty : Bytes → Bool
is_empty [] = true
is_empty (_ ∷ _) = false

-- A `map[string]string`: a read of a missing key gives "" and false.
abbrev pub StringMap : Type 0
StringMap = List (Bytes × Bytes)

abbrev pub find : StringMap → Bytes → Option Bytes
find [] k = none
find ((j, v) ∷ m) k = let rest = find m k in if eq_bytes j k then some v else rest

abbrev pub get : StringMap → Bytes → Bytes
get m k = elim (find m k) [ none ↦ [] | some v ↦ v ]

-- `m[k] = v`.
abbrev pub put : StringMap → Bytes → Bytes → StringMap
put m k v = (k, v) ∷ m
