-- ===== src/Worker/Shutdown.antt =====
-- worker.go: `Stop`, `Drain` and `beginShutdown`, with the goroutines they meet, as steps on what they
-- share. What one goroutine does in a row (the cancel, the wake-up and the start of the waiter in
-- `beginShutdown`; the cancel, the drop of the wake key and the close in the waiter) is one step, though
-- others may run in between.
pub mod Safety
pub mod Wake
use mkq.Prelude.{
  ℕ, suc, ◌+◌, ◌-◌, ◌≤◌, ◌≡◌, Bool, true, false, ℤ, pos, pos_part, ltb_ℤ, if◌then◌else◌,
}

-- `running` is the WaitGroup's count; `waiters` counts waiter goroutines that have not finished,
-- `closes` how often stopDone was closed, `woken` the members pushed to the wake key. `stops` and
-- `expiries` remember how often Stop, and a Drain whose context ended, cancelled the handlers.
pub record Lifecycle : Type 0 where
  pub run_cancelled : Bool
  pub jobs_cancelled : Bool
  pub latched : Bool
  pub wake_key_dropped : Bool
  pub running : ℕ
  pub waiters : ℕ
  pub closes : ℕ
  pub woken : ℕ
  pub stops : ℕ
  pub expiries : ℕ

-- What `Process` returns, with its goroutines started.
unfoldable pub started : ℕ → Lifecycle
started n = record {
  run_cancelled = false;
  jobs_cancelled = false;
  latched = false;
  wake_key_dropped = false;
  running = n;
  waiters = 0;
  closes = 0;
  woken = 0;
  stops = 0;
  expiries = 0;
}

-- How many members `wakeDispatchers` pushes: one for each dispatcher.
unfoldable pub wake_members : ℤ → ℕ
wake_members concurrency = if ltb_ℤ concurrency (pos 1) then 1 else pos_part concurrency

-- `stopOnce.Do`: the contexts of the jobs are left to the caller.
unfoldable pub begin_shutdown : ℤ → Lifecycle → Lifecycle
unfolding wake_members
begin_shutdown concurrency s = if s.latched then s else record s {
  latched = true;
  run_cancelled = true;
  woken = s.woken + wake_members concurrency;
  waiters = s.waiters + 1;
}

-- The first statement of `Stop`.
unfoldable pub stop_cancel : Lifecycle → Lifecycle
stop_cancel s = record s { jobs_cancelled = true; stops = s.stops + 1 }

-- `Drain` when its context ends before stopDone is closed.
unfoldable pub drain_expire : Lifecycle → Lifecycle
drain_expire s = record s { jobs_cancelled = true; expiries = s.expiries + 1 }

-- A dispatch loop or the stalled loop returns: `run.Done()`.
unfoldable pub goroutine_return : Lifecycle → Lifecycle
goroutine_return s = record s { running = s.running - 1 }

-- The waiter behind `run.Wait()`.
unfoldable pub waiter_finish : Lifecycle → Lifecycle
waiter_finish s = record s {
  jobs_cancelled = true;
  wake_key_dropped = true;
  waiters = s.waiters - 1;
  closes = s.closes + 1;
}

-- The steps that may follow one another, from any goroutine. `Stop` cancels and then begins the
-- shutdown; `Drain` only begins it. A dispatch loop returns only once runCtx is cancelled.
pub data Step (concurrency : ℤ) (s : Lifecycle) (t : Lifecycle) : Type 0 where
  stop_called : t ≡ stop_cancel s → Step concurrency s t
  shutdown_begun : t ≡ begin_shutdown concurrency s → Step concurrency s t
  drain_expired : s.latched ≡ true → t ≡ drain_expire s → Step concurrency s t
  goroutine_returned :
      s.run_cancelled ≡ true → 1 ≤ s.running → t ≡ goroutine_return s → Step concurrency s t
  waiter_finished : s.running ≡ 0 → 1 ≤ s.waiters → t ≡ waiter_finish s → Step concurrency s t

pub data Reach (concurrency : ℤ) (n : ℕ) : Lifecycle → Type 0 where
  here : Reach concurrency n (started n)
  next : {s t : Lifecycle} → Reach concurrency n s → Step concurrency s t → Reach concurrency n t
