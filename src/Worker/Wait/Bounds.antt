-- ===== src/Worker/Wait/Bounds.antt =====
-- How long the waits of a dispatcher and the stalled-check key last.
use native.Mathlib.Nat.{pow-suc}
use mkq.Prelude.{
  ℕ, zero, suc, ◌+◌, ◌*◌, ◌/◌, ◌^◌, ◌≤◌, ◌<◌, min, ◌≡◌, true, arith, leb, Bool-cases, inl, inr, ℤ,
  pos, ◌≤ℤ◌, pos_part, if◌then◌else◌,
}
use mkq.Worker.Config.{millisecond, second}
use mkq.Worker.Wait.{
  max_idle_wait, next_idle_wait, stalled_check_ttl, Block, no_wait, at_once, timer, marker_pop,
  idle_branch,
}

-- The wait after a number of idle rounds.
idle_rounds : ℕ → ℤ → ℤ
idle_rounds zero base = base
idle_rounds (suc n) base = next_idle_wait (idle_rounds n base) base

capped_double :
    (b x : ℕ)
    → b < max_idle_wait
    → next_idle_wait (pos (min x max_idle_wait)) (pos b) ≡ pos (min (x * 2) max_idle_wait)
unfolding next_idle_wait
capped_double b x h = ground arith

kept : (b : ℕ) → leb max_idle_wait b ≡ true → next_idle_wait (pos b) (pos b) ≡ pos b
unfolding next_idle_wait
kept b h = ground arith

doubled : (b n : ℕ) → b * 2 ^ n * 2 ≡ b * 2 ^ suc n
doubled b n = rw pow-suc (omega arith)

-- The idle wait doubles with every idle round up to thirty seconds; a longer poll interval is kept as
-- it was set.
idle_rounds-closed :
    (n b : ℕ)
    → idle_rounds n (pos b) ≡ pos (if leb max_idle_wait b then b else min (b * 2 ^ n) max_idle_wait)
unfolding idle_rounds
idle_rounds-closed zero b = ground arith
idle_rounds-closed (suc n) b = elim (Bool-cases (leb max_idle_wait b)) [
  | inl long ↦ rw (idle_rounds-closed n b, long, kept b long)
  | inr short ↦
      rw (idle_rounds-closed n b, short, capped_double b (b * 2 ^ n) (ground arith), doubled b n)
]

-- The key that keeps other workers from scanning is gone before this worker scans again: at intervals of
-- two milliseconds and more it lasts at least a millisecond and at most nine tenths of the interval, of
-- which rounding takes less than a millisecond.
pub stalled_check_ttl-margin :
    (n : ℕ)
    → 2 * millisecond ≤ n
    → let ttl = pos_part (stalled_check_ttl (pos n)) in
      (1 ≤ ttl) × (ttl * millisecond + n / 10 ≤ n) × (n < ttl * millisecond + n / 10 + millisecond)
unfolding stalled_check_ttl
stalled_check_ttl-margin n h = ground arith

abbrev duration : Block → ℤ
duration no_wait = pos 0
duration at_once = pos 0
duration (timer d) = d
duration (marker_pop d) = d

abbrev IsMarker : Block → Type 0
IsMarker (marker_pop d) = pos second ≤ℤ d
IsMarker _ = Unit

-- Without a rate limit in force, a dispatcher that knows of a delayed job waits no longer than until that
-- job is due, and a wait on the marker lasts at least the second that the client library can honour.
idle_branch-on_time :
    (next due idle base : ℕ)
    → 0 < next
    → let b = (idle_branch (pos 0) (pos next) (pos due) (pos idle) (pos base)).0 in
      (duration b ≤ℤ pos due) × IsMarker b
unfolding idle_branch
idle_branch-on_time next due idle base h = ground arith
