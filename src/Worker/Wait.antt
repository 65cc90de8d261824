-- ===== src/Worker/Wait.antt =====
-- worker.go: how long a dispatcher waits, and the TTL of the stalled-check key.
pub mod Bounds
use mkq.Prelude.{ℕ, ◌*◌, ℤ, pos, ◌*ℤ◌, ◌-ℤ◌, ltb_ℤ, leb_ℤ, quot, wrap64, if◌then◌else◌}
use mkq.Worker.Config.{second, millisecond}

abbrev pub max_idle_wait : ℕ
max_idle_wait = 30 * second

abbrev pub marker_wait_floor : ℕ
marker_wait_floor = second

unfoldable pub next_idle_wait : ℤ → ℤ → ℤ
next_idle_wait cur base =
    if leb_ℤ (pos max_idle_wait) base
    then base
    else (let next = wrap64 (cur *ℤ pos 2) in
        if ltb_ℤ (pos max_idle_wait) next then pos max_idle_wait else next)

unfoldable pub stalled_check_ttl : ℤ → ℤ
stalled_check_ttl interval =
    let ttl = quot (interval -ℤ quot interval 10) millisecond in
    if ltb_ℤ ttl (pos 1) then pos 1 else ttl

-- What a round waits on: nothing, a look at the context, a timer, or the marker.
pub data Block : Type 0 where
  no_wait : Block
  at_once : Block
  timer : ℤ → Block
  marker_pop : ℤ → Block

unfoldable pub sleep : ℤ → Block
sleep d = if leb_ℤ d (pos 0) then at_once else timer d

-- BZPopMin's timeout is never less than a second.
unfoldable pub await_marker : ℤ → Block
await_marker timeout =
    if leb_ℤ timeout (pos 0)
    then at_once
    else if ltb_ℤ timeout (pos second)
    then marker_pop (pos second)
    else marker_pop timeout

-- The branches of dispatchLoop for an attempt that found no job: what it waits on, and the idle wait
-- of the next round. `due_in` is the time until the next delayed job.
unfoldable pub idle_branch : ℤ → ℤ → ℤ → ℤ → ℤ → Block × ℤ
unfolding sleep await_marker next_idle_wait
idle_branch expire_ms next_delayed due_in idle base =
    if ltb_ℤ (pos 0) expire_ms
    then (sleep (wrap64 (expire_ms *ℤ pos millisecond)), idle)
    else if ltb_ℤ (pos 0) next_delayed
    then (if leb_ℤ due_in (pos 0)
        then (no_wait, idle)
        else if ltb_ℤ due_in (pos marker_wait_floor)
        then (sleep due_in, idle)
        else if ltb_ℤ (pos max_idle_wait) due_in
        then (await_marker (pos max_idle_wait), idle)
        else (await_marker due_in, idle))
    else (await_marker idle, next_idle_wait idle base)
