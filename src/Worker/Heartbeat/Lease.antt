-- ===== src/Worker/Heartbeat/Lease.antt =====
-- worker.go `heartbeat`: whether the lock outlives the time between two beats.
use mkq.Prelude.{
  ℕ, suc, ◌+◌, ◌*◌, ◌/◌, ◌≤◌, ◌<◌, List, [], ◌∷◌, ◌++◌, Bytes, pos, pos_part, ◌≡◌, ◌≢◌, refl, ap,
  arith,
}
use mkq.Redis.{int, Call, World, ok, History, Signal, ticked, ended}
use mkq.Worker.Config.{second, millisecond}
use mkq.Worker.Finish.{Worker, lock_ms}
use mkq.Worker.Heartbeat.{Beating, cancelled, tick, beat, heartbeat}

in_time :
    (t n step late lock set now : ℕ)
    → step + late < lock
    → t + n * step ≤ set
    → now ≤ t + suc n * step + late
    → now < set + lock
in_time t n step late lock set now m held by = grind arith

too_late : (t step lock now : ℕ) → lock ≤ step → t + 1 * step ≤ now → t + lock ≤ now
too_late t step lock now short from = omega arith

shift : (t n b step : ℕ) → t + (suc n + b) * step ≡ t + (n + suc b) * step
shift t n b step = ap (λ c. t + c * step) (omega arith)

module _ (w : World) (k : Worker) (token job_id : Bytes) where
  -- Nanoseconds between two ticks, and for which the lock is set.
  abbrev pub tick_ns : ℕ
  tick_ns = pos_part (tick w k)

  abbrev pub lock_ns : ℕ
  lock_ns = pos_part (lock_ms w k) * millisecond

  -- What extendLock documents: `time` is Redis's clock, and `renewed` when the lock was last set. A lock
  -- that has not run out is set again and the reply is 1; one that has is gone, and the reply is 0.
  pub record Leases : Type 0 where
    pub time : History → ℕ
    pub renewed : History → ℕ
    pub extends :
        (h : History)
        → time h < renewed h + lock_ns
        → (w.redis h (beat w k token job_id) ≡ ok (int (pos 1)))
          × (renewed (beat w k token job_id ∷ h) ≡ time h)
    pub refuses :
        (h : History)
        → renewed h + lock_ns ≤ time h
        → w.redis h (beat w k token job_id) ≡ ok (int (pos 0))

  module _ (l : Leases) where
    -- Beat number `n` reaches Redis at most `late` behind its tick, which comes `n` intervals behind the
    -- time `t`; nobody else touches the lock.
    abbrev pub OnTime : ℕ → ℕ → ℕ → List Signal → History → Type 0
    OnTime t late n [] h = Unit
    OnTime t late n (ended ∷ es) h = Unit
    OnTime t late n (ticked others ∷ es) h =
        (l.renewed (others ++ h) ≡ l.renewed h)
        × (t + n * tick_ns ≤ l.time (others ++ h))
        × (l.time (others ++ h) ≤ t + n * tick_ns + late)
        × OnTime t late (suc n) es (beat w k token job_id ∷ others ++ h)

    -- How many beats come before the end of the job.
    abbrev pub beats : List Signal → ℕ
    beats [] = 0
    beats (ended ∷ es) = 0
    beats (ticked others ∷ es) = suc (beats es)

    -- Two seconds or more leave half of the lock, less a millisecond, for a late beat.
    margin :
        (d late : ℕ)
        → k.cfg.lock_duration ≡ pos d
        → 2 * second ≤ d
        → late + millisecond ≤ d / 2
        → tick_ns + late < lock_ns
    margin d late e long short = rw (e) (ground arith)

    -- A lock of a second or less has run out when the first tick comes.
    too_short : (d : ℕ) → k.cfg.lock_duration ≡ pos d → d ≤ second → lock_ns ≤ tick_ns
    too_short d e short = rw (e) (ground arith)

    kept :
        (others : List Call) (es : List Signal) (h : History)
        → w.redis (others ++ h) (beat w k token job_id) ≡ ok (int (pos 1))
        → heartbeat w k token job_id (ticked others ∷ es) h
          ≡ heartbeat w k token job_id es (beat w k token job_id ∷ others ++ h)
    unfolding heartbeat
    kept others es h e = rw (e, heartbeat) refl

    dropped :
        (others : List Call) (es : List Signal) (h : History)
        → w.redis (others ++ h) (beat w k token job_id) ≡ ok (int (pos 0))
        → heartbeat w k token job_id (ticked others ∷ es) h
          ≡ (cancelled, beat w k token job_id ∷ others ++ h)
    unfolding heartbeat
    dropped others es h e = rw (e, heartbeat) refl

    abbrev Keeps : ℕ → ℕ → Beating × History → Type 0
    Keeps t n (b, h) = (b ≢ cancelled) × (t + n * tick_ns ≤ l.renewed h)

    keeps :
        (t late n : ℕ) (es : List Signal) (h : History)
        → tick_ns + late < lock_ns
        → t + n * tick_ns ≤ l.renewed h
        → OnTime t late (suc n) es h
        → Keeps t (n + beats es) (heartbeat w k token job_id es h)
    unfolding heartbeat
    keeps t late n [] h m held on = ((λ e. cc e), grind arith)
    keeps t late n (ended ∷ es) h m held on = ((λ e. cc e), grind arith)
    keeps t late n (ticked others ∷ es) h m held (same, from, by, on) =
        let inside : l.time (others ++ h) < l.renewed (others ++ h) + lock_ns =
          rw (same) (in_time t n tick_ns late lock_ns (l.renewed h) _ m held by) in
        let (answer, renewed) = l.extends (others ++ h) inside in
        let next : t + suc n * tick_ns ≤ l.renewed (beat w k token job_id ∷ others ++ h) =
          rw (renewed) from in
        let (safe, count) =
          keeps t late (suc n) es (beat w k token job_id ∷ others ++ h) m next on in
        rw (kept others es h answer) (safe, rw (← shift t n (beats es) tick_ns) count)

    -- With a lock of two seconds or more, beats that reach Redis less than half of it, less a
    -- millisecond, behind their ticks, and nobody else at the lock: however many ticks come, the
    -- heartbeat does not cancel the job, and the lock was last set no earlier than the last tick.
    pub heartbeat-keeps_lock :
        (d late : ℕ) (es : List Signal) (h : History)
        → k.cfg.lock_duration ≡ pos d
        → 2 * second ≤ d
        → late + millisecond ≤ d / 2
        → OnTime (l.renewed h) late 1 es h
        → let (b, h') = heartbeat w k token job_id es h in
          (b ≢ cancelled) × (l.renewed h + beats es * tick_ns ≤ l.renewed h')
    heartbeat-keeps_lock d late es h e long short on =
        let start : l.renewed h + 0 * tick_ns ≤ l.renewed h = grind arith in
        let count : 0 + beats es ≡ beats es = omega arith in
        rw (← count) (keeps (l.renewed h) late 0 es h (margin d late e long short) start on)

    -- A lock of a second or less, and ticks that come no earlier than they should: the first tick finds
    -- the lock gone, and the heartbeat cancels the job and ends.
    pub heartbeat-lapses :
        (d late : ℕ) (others : List Call) (es : List Signal) (h : History)
        → k.cfg.lock_duration ≡ pos d
        → d ≤ second
        → OnTime (l.renewed h) late 1 (ticked others ∷ es) h
        → heartbeat w k token job_id (ticked others ∷ es) h
          ≡ (cancelled, beat w k token job_id ∷ others ++ h)
    heartbeat-lapses d late others es h e short (same, from, by, on) =
        let past : l.renewed (others ++ h) + lock_ns ≤ l.time (others ++ h) =
          rw (same) (too_late (l.renewed h) tick_ns lock_ns _ (too_short d e short) from) in
        dropped others es h (l.refuses (others ++ h) past)
