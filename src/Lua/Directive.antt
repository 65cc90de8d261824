-- ===== src/Lua/Directive.antt =====
-- internal/lua/preprocess.go: the regular expression `includeRe`, which is
-- (?m)^\s*---\s*@include\s+"([^"]+)"\s*$ , and FindAllSubmatchIndex with it. A position in a file is the
-- text from there on.
pub mod Blank
use mkq.Prelude.{
  ℕ, zero, suc, Bool, true, false, ◌&&◌, ◌||◌, List, [], ◌∷◌, Option, none, some, Bytes, codes,
  is_empty, ◌==◌, length, if◌then◌else◌,
}

-- \s
unfoldable pub is_space : ℕ → Bool
is_space c = c == 32 || (c == 9 || (c == 10 || (c == 12 || c == 13)))

-- \s*, where what follows it is no space.
unfoldable pub skip_space : Bytes → Bytes
unfolding is_space
skip_space [] = []
skip_space (c ∷ s) = let rest = skip_space s in if is_space c then rest else c ∷ s

-- A literal text.
unfoldable pub strip : Bytes → Bytes → Option Bytes
strip [] s = some s
strip (p ∷ ps) [] = none
strip (p ∷ ps) (c ∷ s) = let rest = strip ps s in if p == c then rest else none

-- \s+
unfoldable pub skip_spaces : Bytes → Option Bytes
unfolding skip_space
skip_spaces [] = none
skip_spaces (c ∷ s) = if is_space c then some (skip_space s) else none

-- [^"]*
unfoldable pub until_quote : Bytes → Bytes × Bytes
until_quote [] = ([], [])
until_quote (c ∷ s) = let (r, t) = until_quote s in if c == b'"' then ([], c ∷ s) else (c ∷ r, t)

-- \s*$ takes as many spaces as it can, and gives back until the end of a line: the end of the text, or a
-- place in front of a newline. The Boolean tells whether a newline stands in front of the place found.
unfoldable pub line_end : Bytes → Bool → Option (Bytes × Bool)
unfolding is_space
line_end [] newline = some ([], newline)
line_end (c ∷ s) newline =
    if is_space c
    then elim (line_end s (c == 10)) [
      | some r ↦ some r
      | none ↦ if c == 10 then some (c ∷ s, newline) else none
    ]
    else none

-- A match: the places where it begins and ends, and the reference.
pub record Match : Type 0 where
  pub before : Bytes
  pub ref : Bytes
  pub after : Bytes
  pub after_newline : Bool

infixl 5 ◌>>=◌
abbrev pub ◌>>=◌ : {A B : Type 0} → Option A → (A → Option B) → Option B
none >>= f = none
some a >>= f = f a

abbrev some_ref : Bytes → Bytes × Bytes → Option (Bytes × Bytes)
some_ref start ([], t) = none
some_ref start (c ∷ r, t) = some (c ∷ r, t)

-- The expression behind `^`, at a place that begins a line.
unfoldable pub match_at : Bytes → Option Match
unfolding skip_space strip skip_spaces until_quote line_end
match_at s = do
  s1 ← strip (codes "---") (skip_space s)
  s2 ← strip (codes "@include") (skip_space s1)
  s3 ← skip_spaces s2
  s4 ← strip (codes "\"") s3
  r ← some_ref s4 (until_quote s4)
  s5 ← strip (codes "\"") r.1
  e ← line_end s5 false
  some (record { before = s; ref = r.0; after = e.0; after_newline = e.1 })

-- The matches from a place on, which begins a line or does not. The fuel is the number of places left.
unfoldable pub matches : ℕ → Bool → Bytes → List Match
matches zero begins s = []
matches (suc f) begins [] = []
matches (suc f) begins (c ∷ s) =
    let next = matches f (c == 10) s in
    elim (if begins then match_at (c ∷ s) else none) [
      | none ↦ next
      | some m ↦ m ∷ matches f m.after_newline m.after
    ]

unfoldable pub find_all : Bytes → List Match
unfolding matches
find_all s = matches (length s) true s
