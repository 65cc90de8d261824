-- ===== src/Worker/Shutdown/Safety.antt =====
-- What holds of a worker at every moment of its life, whatever calls of Stop and Drain it gets.
use mkq.Prelude.{ℕ, zero, suc, ◌+◌, ◌≤◌, ◌≡◌, refl, ◌⊎◌, true, false, ℤ, arith}
use native.Mathlib.Decide.{dec_lt}
use mkq.Worker.Shutdown.{
  Lifecycle, started, wake_members, begin_shutdown, stop_cancel, drain_expire, goroutine_return,
  waiter_finish, Step, stop_called, shutdown_begun, drain_expired, goroutine_returned,
  waiter_finished, Reach, here, next,
}

pub record Inv (c : ℤ) (s : Lifecycle) : Type 0 where
  pub one_latch : s.latched ≡ s.run_cancelled
  pub one_waiter : s.latched ≡ true → s.waiters + s.closes ≡ 1
  pub none_before : s.latched ≡ false → (s.waiters ≡ 0) × (s.closes ≡ 0) × (s.woken ≡ 0)
  pub woken_once : s.latched ≡ true → s.woken ≡ wake_members c
  pub closed_done :
      1 ≤ s.closes → (s.running ≡ 0) × (s.jobs_cancelled ≡ true) × (s.wake_key_dropped ≡ true)
  pub cancelled_by : s.jobs_cancelled ≡ true → (1 ≤ s.closes) ⊎ ((1 ≤ s.stops) ⊎ (1 ≤ s.expiries))

started-Inv : (c : ℤ) (n : ℕ) → Inv c (started n)
unfolding started
started-Inv c n = ground arith

Step-Inv : (c : ℤ) {s t : Lifecycle} → Step c s t → Inv c s → Inv c t
unfolding stop_cancel begin_shutdown drain_expire goroutine_return waiter_finish
Step-Inv c (stop_called e) i = ground arith
Step-Inv c (shutdown_begun e) i = ground arith
Step-Inv c (drain_expired l e) i = ground arith
Step-Inv c (goroutine_returned r p e) i = ground arith
Step-Inv c (waiter_finished r p e) i = ground arith

pub Reach-Inv : (c : ℤ) (n : ℕ) {s : Lifecycle} → Reach c n s → Inv c s
Reach-Inv c n here = started-Inv c n
Reach-Inv c n (next r st) = Step-Inv c st (Reach-Inv c n r)

-- Drain: as long as a goroutine runs, the handlers' context is cancelled only if Stop was called or the
-- context of some Drain ended first.
drain-keeps_jobs :
    (c : ℤ) (n : ℕ) {s : Lifecycle}
    → Reach c n s
    → 1 ≤ s.running
    → s.stops ≡ 0
    → s.expiries ≡ 0
    → s.jobs_cancelled ≡ false
drain-keeps_jobs c n r live no_stop no_expiry = ground (arith, Reach-Inv c n r)

-- However often and in whatever order Stop and Drain are called, stopDone is closed at most once (a
-- second close would panic); by then every goroutine has returned, both contexts are cancelled and the
-- wake key is dropped, and the dispatchers were woken by exactly one push of one member each. Drain alone
-- never cancels the handlers: while a goroutine runs, they have been cancelled only if Stop was called or
-- the context of a Drain ended.
pub closed_once :
    (c : ℤ) (n : ℕ) {s : Lifecycle}
    → Reach c n s
    → (s.closes ≤ 1)
      × (1 ≤ s.closes
          → (s.running ≡ 0)
            × (s.run_cancelled ≡ true)
            × (s.jobs_cancelled ≡ true)
            × (s.wake_key_dropped ≡ true)
            × (s.woken ≡ wake_members c))
      × ((1 ≤ s.running) × (s.stops ≡ 0) × (s.expiries ≡ 0) → s.jobs_cancelled ≡ false)
closed_once c n r = ground (arith, Reach-Inv c n r)

-- A shutdown that has begun never gets stuck: a goroutine that still runs may return, or the waiter may
-- finish, or stopDone is closed already and every caller is let go.
pub shutdown-progress :
    (c : ℤ) (n : ℕ) {s : Lifecycle}
    → Reach c n s
    → s.latched ≡ true
    → ((s.run_cancelled ≡ true) × (1 ≤ s.running))
      ⊎ (((s.running ≡ 0) × (1 ≤ s.waiters)) ⊎ (s.closes ≡ 1))
shutdown-progress c n r l = ground (arith, Reach-Inv c n r)

-- The goroutines return one after the other, and then the waiter finishes.
pub data Steps (c : ℤ) : Lifecycle → Lifecycle → Type 0 where
  stay : {s : Lifecycle} → Steps c s s
  then : {s t u : Lifecycle} → Step c s t → Steps c t u → Steps c s u

shutdown_ends :
    (c : ℤ) (m : ℕ) (s : Lifecycle)
    → Inv c s
    → s.latched ≡ true
    → s.running ≡ m
    → s.closes ≡ 0
    → (t : Lifecycle) × Steps c s t × (t.closes ≡ 1)
unfolding goroutine_return waiter_finish
shutdown_ends c zero s i l e open_ =
    (waiter_finish s, then (waiter_finished e (ground arith) refl) stay, ground arith)
shutdown_ends c (suc m) s i l e open_ =
    let st : Step c s (goroutine_return s) =
      goroutine_returned (ground arith) (ground arith) refl in
    let (t, steps, done) =
      shutdown_ends c m (goroutine_return s) (Step-Inv c st i) l (ground arith) open_ in
    (t, then st steps, done)

-- From every state of a shutdown that the steps can bring about there is a way to its end, at which
-- stopDone has been closed.
pub shutdown-ends :
    (c : ℤ) (n : ℕ) {s : Lifecycle}
    → Reach c n s
    → s.latched ≡ true
    → (t : Lifecycle) × Steps c s t × (t.closes ≡ 1)
shutdown-ends c n {s} r l = elim (dec_lt 0 s.closes) [
  | yes done ↦ (s, stay, ground (arith, closed_once c n r))
  | no none ↦ shutdown_ends c s.running s (Reach-Inv c n r) l refl (omega arith)
]
