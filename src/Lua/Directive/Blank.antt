-- ===== src/Lua/Directive/Blank.antt =====
-- internal/lua/preprocess.go: two directives with one empty line between them.
use mkq.Prelude.{
  ℕ, suc, Bool, true, false, List, [], ◌∷◌, ◌++◌, some, inl, inr, Option-cases, Bytes, codes, ◌≡◌,
  refl, ◌==◌, is_empty, length, ap, ◌∙◌,
}
use mkq.Lua.Directive.{Match, until_quote, match_at, line_end, matches, find_all}

-- A text that a reference can be: not empty, and without a quote.
abbrev pub Quotable : Bytes → Type 0
Quotable [] = Unit
Quotable (c ∷ s) = ((c == b'"') ≡ false) × Quotable s

abbrev pub IsRef : Bytes → Type 0
IsRef s = (is_empty s ≡ false) × Quotable s

until_quote-Quotable : (r t : Bytes) → Quotable r → until_quote (r ++ b'"' ∷ t) ≡ (r, b'"' ∷ t)
unfolding until_quote
until_quote-Quotable [] t q = refl
until_quote-Quotable (c ∷ r) t q = rw (until_quote-Quotable r t q.1, q.0)

-- The first of the two takes the first newline with it, and ends in front of the second.
first_match :
    (a rest : Bytes)
    → IsRef a
    → match_at (codes "--- @include \"" ++ (a ++ b'"' ∷ 10 ∷ 10 ∷ b'-' ∷ rest))
      ≡ some (record {
        before = codes "--- @include \"" ++ (a ++ b'"' ∷ 10 ∷ 10 ∷ b'-' ∷ rest);
        ref = a;
        after = 10 ∷ b'-' ∷ rest;
        after_newline = true;
      })
unfolding match_at
first_match [] rest h = cc
first_match (c ∷ a) rest h = rw (until_quote-Quotable (c ∷ a) (10 ∷ 10 ∷ b'-' ∷ rest) h.1) refl

line_end-newline : (s : Bytes) → (e : Bytes × Bool) × (line_end (10 ∷ s) false ≡ some e)
unfolding line_end
line_end-newline s = elim (Option-cases (line_end s true)) [
  | inl stuck ↦ ((10 ∷ s, false), rw stuck refl)
  | inr (e, found) ↦ (e, rw found refl)
]

-- The second begins at the newline that the first has left.
second_match :
    (b rest : Bytes)
    → IsRef b
    → let s = 10 ∷ (codes "--- @include \"" ++ (b ++ b'"' ∷ 10 ∷ rest)) in
      (m : Match) × (match_at s ≡ some m) × (m.before ≡ s)
unfolding match_at
second_match [] rest h = cc
second_match (c ∷ b) rest h =
    let (e, found) = line_end-newline rest in
    (
      record {
        before = 10 ∷ (codes "--- @include \"" ++ ((c ∷ b) ++ b'"' ∷ 10 ∷ rest));
        ref = c ∷ b;
        after = e.0;
        after_newline = e.1;
      },
      rw (until_quote-Quotable (c ∷ b) (10 ∷ rest) h.1, found) refl,
      refl,
    )

abbrev pub two_directives : Bytes → Bytes → Bytes → Bytes
two_directives a b rest =
    codes "--- @include \""
    ++ (a ++ b'"' ∷ 10 ∷ 10 ∷ (codes "--- @include \"" ++ (b ++ b'"' ∷ 10 ∷ rest)))

matches_found :
    (f c : ℕ) (s : Bytes) (m : Match)
    → match_at (c ∷ s) ≡ some m
    → matches (suc f) true (c ∷ s) ≡ m ∷ matches f m.after_newline m.after
unfolding matches
matches_found f c s m found = rw (found, matches) refl

pub find_all-two :
    (a b rest : Bytes)
    → IsRef a
    → IsRef b
    → let second = codes "--- @include \"" ++ (b ++ b'"' ∷ 10 ∷ rest) in
      (m n : Match) × (ms : List Match) × (find_all (two_directives a b rest) ≡ m ∷ n ∷ ms)
      × (m.before ≡ two_directives a b rest)
      × (m.after ≡ 10 ∷ second)
      × (n.before ≡ 10 ∷ second)
unfolding find_all
find_all-two a b rest ha hb =
    let second = codes "--- @include \"" ++ (b ++ b'"' ∷ 10 ∷ rest) in
    let tail = a ++ b'"' ∷ 10 ∷ 10 ∷ second in
    let (n, found, place) = second_match b rest hb in
    let m : Match = record {
      before = two_directives a b rest;
      ref = a;
      after = 10 ∷ second;
      after_newline = true;
    } in
    (
      m,
      n,
      _,
      matches_found (length (codes "-- @include \"" ++ tail)) b'-' (codes "-- @include \"" ++ tail)
            m (first_match a (codes "-- @include \"" ++ (b ++ b'"' ∷ 10 ∷ rest)) ha)
          ∙ ap (λ l. m ∷ l)
              (matches_found (length (codes "- @include \"" ++ tail)) 10 second n found),
      refl,
      refl,
      place,
    )
