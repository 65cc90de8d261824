-- ===== src/Inspector/Pause.antt =====
-- inspector_admin.go: `Pause`, `Resume`, and the bounded loop that they share.
pub mod Rounds
use mkq.Prelude.{
  ℕ, zero, suc, true, false, [], ◌∷◌, ◌++◌, Option, none, some, Bytes, codes, ℤ, pos, leb_ℤ,
  if◌then◌else◌,
}
use mkq.Failure.{coded, is_redis_nil, wrap}
use mkq.Keys
use mkq.Keys.{Builder, Slot}
use mkq.Redis.{
  Value, int, Call, eval, hexists, text, World, M, Result, ok, err, ask, checked, and_then,
}
use mkq.Redis.Scripts.{pause as pause_script}

abbrev pub legacy_drain_rounds : ℕ
legacy_drain_rounds = 100

-- `res.(int64)`, 0 for anything else.
abbrev pub remaining_of : Value → ℤ
remaining_of (int n) = n
remaining_of _ = pos 0

-- A script that answers with nothing is done.
abbrev pub pause_reply : Bytes → Result Value → Result ℤ
pause_reply event (ok v) = ok (remaining_of v)
pause_reply event (err e) =
    if is_redis_nil e then ok (pos 0) else err (wrap (codes "mkq: " ++ event) e)

module _ (w : World) (b : Builder) (source target : Slot) (event : Bytes) where
  abbrev pub pause_call : Call
  pause_call =
      eval pause_script
        (Keys.slot b source
          ∷ Keys.slot b target
          ∷ Keys.slot b Keys.meta
          ∷ Keys.slot b Keys.prioritized
          ∷ Keys.slot b Keys.events
          ∷ Keys.slot b Keys.delayed
          ∷ Keys.slot b Keys.marker
          ∷ [])
        (text event ∷ text (codes "1") ∷ [])

  unfoldable pub run_pause_script : M ℤ
  run_pause_script h = (pause_reply event (w.redis h pause_call), pause_call ∷ h)

  abbrev pub parked : ℤ → Result (Unit {0})
  parked n = err (
      coded
        (codes "mkq: "
          ++ event
          ++ codes ": jobs still parked in the legacy paused list after 100 rounds")
        n)

  -- Behind a round: done, or the rounds that are left; with none left it gives up.
  abbrev pub decide : Result ℤ → Option (M (Unit {0})) → M (Unit {0})
  decide (err e) rest h = (err e, h)
  decide (ok n) none h = (if leb_ℤ n (pos 0) then ok tt else parked n, h)
  decide (ok n) (some rest) h = if leb_ℤ n (pos 0) then (ok tt, h) else rest h

  -- The loop with a number of rounds left, of which it makes at least one.
  unfoldable pub pause_rounds : ℕ → M (Unit {0})
  unfolding run_pause_script
  pause_rounds zero h = let (r, h') = run_pause_script h in decide r none h'
  pause_rounds (suc f) h = let (r, h') = run_pause_script h in decide r (some (pause_rounds f)) h'

  unfoldable pub pause_resume : M (Unit {0})
  unfolding pause_rounds
  pause_resume = pause_rounds 99

module _ (w : World) (b : Builder) where
  unfoldable pub pause : M (Unit {0})
  unfolding pause_resume
  pause = pause_resume w b Keys.wait Keys.paused (codes "paused")

  unfoldable pub resume : M (Unit {0})
  unfolding pause_resume
  resume = pause_resume w b Keys.paused Keys.wait (codes "resumed")
