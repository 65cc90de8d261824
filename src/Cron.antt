-- ===== src/Cron.antt =====
-- cron.go: which patterns are accepted. The cron library's parser and calendar are the world's
-- `next_fire`; the cache in front of it does not change an answer.
pub mod Cache
use mkq.Prelude.{
  ℕ, ◌+◌, Bool, true, false, ◌&&◌, ◌||◌, [], ◌∷◌, Bytes, codes, is_empty, ◌==◌, leb, ℤ,
  if◌then◌else◌,
}
use mkq.Failure.{plain}
use mkq.Redis.{World, Result, err}

abbrev pub at_every : Bytes
at_every = codes "@every"

abbrev pub lower : ℕ → ℕ
lower c = if leb b'A' c && leb c b'Z' then c + 32 else c

-- Behind the prefix there is nothing, or a space or a tab.
abbrev pub at_boundary : Bytes → Bool
at_boundary [] = true
at_boundary (c ∷ s) = c == b' ' || c == 9

-- The loop over the prefix.
unfoldable pub matches_prefix : Bytes → Bytes → Bool
matches_prefix [] s = at_boundary s
matches_prefix (p ∷ ps) [] = false
matches_prefix (p ∷ ps) (c ∷ s) =
    let rest = matches_prefix ps s in if lower c == p then rest else false

unfoldable pub is_at_every : Bytes → Bool
unfolding matches_prefix
is_at_every s = matches_prefix at_every s

-- `parseCron(pattern, tz)` followed by `nextFire(from)`.
unfoldable pub cron_next : World → Bytes → Bytes → ℤ → Result ℤ
unfolding is_at_every
cron_next w pattern tz from =
    if is_empty pattern
    then err (plain (codes "mkq: pattern must be non-empty"))
    else if is_at_every pattern
    then err (plain (codes "mkq: @every is not supported as a cron pattern"))
    else w.next_fire pattern tz from
