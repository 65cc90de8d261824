-- ===== src/Schedule/Reschedule/Ends.antt =====
-- worker.go: what `rescheduleNext` asks of Redis.
use mkq.Prelude.{
  Bool, true, false, ◌∷◌, Option, none, some, Bytes, ◌≡◌, refl, sym, ◌⊎◌, inl, inr, ℤ, pos, ◌≤ℤ◌,
  ltb_ℤ, leb_ℤ, arith, ◌&&◌, is_empty, if◌then◌else◌, floor_div,
}
use mkq.Keys
use mkq.Keys.{Builder}
use mkq.Redis.{World, History, hmget, Result, ok, err}
use mkq.Schedule.Reschedule.{
  Stored, stored_fields, read_stored, plan_next, past_end, unless_past, reschedule_next,
  call_scheduler, call_if, enqueue, enqueue_stored,
}

-- Below the limit of iterations if there is one, and a firing that is not past the end date if there is one.
abbrev pub InTime : Stored → ℤ → Type 0
InTime s next =
    (pos 1 ≤ℤ s.limit → ltb_ℤ s.iterations s.limit ≡ true)
    × (pos 1 ≤ℤ s.end_date → next ≤ℤ s.end_date)

-- A guard that gives nothing was not met.
guard-else :
    (b : Bool) {p : Option (ℤ × Bytes)} {x : ℤ × Bytes}
    → (if b then none else p) ≡ some x
    → (b ≡ false) × (p ≡ some x)
guard-else true e = cc
guard-else false e = (refl, e)

not_past :
    (s : Stored) (p : Option (ℤ × Bytes)) (next : ℤ) (arg : Bytes)
    → unless_past s p ≡ some (next, arg)
    → pos 1 ≤ℤ s.end_date
    → next ≤ℤ s.end_date
not_past s none next arg e h = cc
not_past s (some (t, a)) next arg e h =
    let (before, same) = guard-else (past_end s t) e in
    let now : t ≡ next = cc in rw (sym now) (ground arith)

plan_next-InTime :
    (w : World) (now : ℤ) (s : Stored) (next : ℤ) (arg : Bytes)
    → plan_next w now s ≡ some (next, arg)
    → InTime s next
unfolding plan_next
plan_next-InTime w now s next arg e =
    let (below, e') = guard-else (ltb_ℤ (pos 0) s.limit && leb_ℤ s.limit s.iterations) e in
    let (fires, e'') = guard-else (leb_ℤ s.every_ms (pos 0) && is_empty s.pattern) e' in
    (λ l. ground arith, not_past s _ next arg e'')

-- Behind the read nothing is asked, or one job more, within the schedule's bounds.
module _ (w : World) (b : Builder) (schedule_id job_id : Bytes) (read : History) where
  abbrev pub Asks : Option Stored → History → Type 0
  Asks o h =
      (h ≡ read)
      ⊎ ((s : Stored) × (next : ℤ) × (arg : Bytes) × (opts : Bytes) × (o ≡ some s)
          × InTime s next
          × (plan_next w (w.now read) s ≡ some (next, arg))
          × (h
              ≡ call_scheduler w b schedule_id job_id arg opts (floor_div (w.now read) 1_000_000)
                ∷ read))

  call_if-Asks :
      (s : Stored) (next : ℤ) (arg : Bytes) (r : Result Bytes)
      → plan_next w (w.now read) s ≡ some (next, arg)
      → Asks (some s) (call_if w b schedule_id job_id arg r read)
  call_if-Asks s next arg (err e) planned = inl refl
  call_if-Asks s next arg (ok opts) planned =
      inr (
        s,
        next,
        arg,
        opts,
        refl,
        plan_next-InTime w (w.now read) s next arg planned,
        planned,
        refl,
      )

  enqueue-Asks :
      (s : Stored) (p : Option (ℤ × Bytes))
      → plan_next w (w.now read) s ≡ p
      → Asks (some s) (enqueue w b schedule_id job_id s p read)
  enqueue-Asks s none planned = inl refl
  enqueue-Asks s (some (next, arg)) planned = call_if-Asks s next arg _ planned

  enqueue_stored-Asks : (o : Option Stored) → Asks o (enqueue_stored w b schedule_id job_id o read)
  enqueue_stored-Asks none = inl refl
  enqueue_stored-Asks (some s) = enqueue-Asks s _ refl

-- rescheduleNext reads the scheduler's HASH, and then makes at most one call, of the script that adds a
-- schedule's next job; it makes it only if all eight fields were read, fewer than `limit` iterations are
-- counted (if there is a limit), and the firing planned is not past the end date (if there is one).
pub reschedule_next-Asks :
    (w : World) (b : Builder) (schedule_id job_id : Bytes) (h : History)
    → let read = hmget (Keys.schedule b schedule_id) stored_fields in
      Asks w b schedule_id job_id
        (read ∷ h)
        (read_stored (w.redis h read))
        (reschedule_next w b schedule_id job_id h)
unfolding reschedule_next
reschedule_next-Asks w b schedule_id job_id h = enqueue_stored-Asks w b schedule_id job_id _ _
