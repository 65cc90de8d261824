-- ===== src/Tests/Lifetime.antt =====
-- The life of the test worker: its dispatch loops, its shutdown and its scans.
use mkq.Prelude.{
  true, false, [], ◌∷◌, none, some, Option, Bytes, codes, ◌≡◌, refl, arith, ℤ, pos, ◌≤◌, List,
  negsuc, get_elem?,
}
use mkq.Redis.{Value, int, Arg, text, number, ok}
use mkq.Worker.Config.{
  default_config, configure, default_worker_name, IsSound, WorkerOption, with_concurrency,
  with_lock_duration, with_rate_limit,
}
use mkq.Worker.Config.Sound.{Follows, configure-IsSound}
use mkq.Worker.Finish.{Worker, release}
use mkq.Worker.Run.{run_job}
use mkq.Worker.Dispatch.{Slot, loop}
use mkq.Worker.Dispatch.Drain.{FetchesOnRequest}
use mkq.Worker.Dispatch.Closing.{drain-finishes_held, stop-releases}
use mkq.Worker.Dispatch.Alive.{loop-stays}
use mkq.Worker.Shutdown.{
  Lifecycle, started, wake_members, begin_shutdown, goroutine_return, waiter_finish, shutdown_begun,
  goroutine_returned, waiter_finished, Reach, here, next,
}
use mkq.Worker.Shutdown.Safety.{Steps, closed_once, shutdown-ends}
use mkq.Tests.Setup.{
  open_world, draining, stopping, worker, job_map, job_id, token, held, finished_reply,
}

abbrev wake : Bytes
wake = codes "bull:mail:wake"

abbrev holding : Slot
holding = record { prefetched = some held; idle_wait = pos 0 }

unasked :
    (flag : Option Arg) (v : Value)
    → ok (finished_reply flag) ≡ ok v
    → flag ≡ some (text [])
    → (n : ℤ) × (v ≡ int n)
unasked (some (text [])) v e asks = (pos 0, cc)
unasked (some (text (c ∷ s))) v e asks = cc
unasked (some (number n)) v e asks = (pos 0, cc)
unasked none v e asks = (pos 0, cc)

draining-FetchesOnRequest : FetchesOnRequest draining
draining-FetchesOnRequest h keys args v e asks = unasked (get_elem? args 5) v e asks

drain-finishes_held_example :
    loop draining worker wake 2 holding []
    ≡ (ok none, (run_job draining worker token job_id job_map []).1)
drain-finishes_held_example =
    drain-finishes_held draining worker wake (λ h. refl) draining-FetchesOnRequest 0 (pos 0) held []
      refl

stop-releases_example :
    loop stopping worker wake 1 holding [] ≡ (ok none, release stopping worker job_id token [])
stop-releases_example = stop-releases stopping worker wake (λ h. refl) 0 (pos 0) held [] refl

loop-stays_example : (s' : Slot) × ((loop open_world worker wake 5 holding []).0 ≡ ok (some s'))
loop-stays_example = loop-stays open_world worker wake (λ h. refl) 5 holding []

abbrev by_default : Worker
by_default = record worker { cfg = default_config }

abbrev some_options : List WorkerOption
some_options =
    with_concurrency (pos 0)
    ∷ with_lock_duration (negsuc 4)
    ∷ with_rate_limit (pos 10) (pos 1000)
    ∷ []

configure-IsSound_example :
    let c = configure (default_worker_name (ok []) (pos 7) (codes "0123456789")) some_options in
    Follows some_options c × IsSound c
configure-IsSound_example = configure-IsSound (ok []) (pos 7) (codes "0123456789") some_options

-- Two goroutines; Drain is called, then one of them returns.
drained_by_one : Reach (pos 1) 2 (goroutine_return (begin_shutdown (pos 1) (started 2)))
unfolding goroutine_return begin_shutdown started
drained_by_one = next (next here (shutdown_begun refl)) (goroutine_returned refl (omega arith) refl)

all_done :
    Reach
      (pos 1)
      2
      (waiter_finish (goroutine_return (goroutine_return (begin_shutdown (pos 1) (started 2)))))
unfolding goroutine_return begin_shutdown started
all_done =
    next (next drained_by_one (goroutine_returned refl (omega arith) refl))
      (waiter_finished refl (omega arith) refl)

abbrev ended : Lifecycle
ended = waiter_finish (goroutine_return (goroutine_return (begin_shutdown (pos 1) (started 2))))

closed_once_example :
    (ended.closes ≤ 1)
    × (1 ≤ ended.closes
        → (ended.running ≡ 0)
          × (ended.run_cancelled ≡ true)
          × (ended.jobs_cancelled ≡ true)
          × (ended.wake_key_dropped ≡ true)
          × (ended.woken ≡ wake_members (pos 1)))
    × ((1 ≤ ended.running) × (ended.stops ≡ 0) × (ended.expiries ≡ 0)
        → ended.jobs_cancelled ≡ false)
closed_once_example = closed_once (pos 1) 2 all_done

shutdown-ends_example :
    (t : Lifecycle) × Steps (pos 1) (goroutine_return (begin_shutdown (pos 1) (started 2))) t
    × (t.closes ≡ 1)
unfolding goroutine_return begin_shutdown started
shutdown-ends_example = shutdown-ends (pos 1) 2 drained_by_one refl
