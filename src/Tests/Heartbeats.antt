-- ===== src/Tests/Heartbeats.antt =====
-- A lock of thirty seconds under three beats, and one of half a second.
use mkq.Prelude.{◌+◌, ◌*◌, ◌≤◌, ◌≡◌, ◌≢◌, List, [], ◌∷◌, pos, length, refl, arith}
use mkq.Redis.{int, World, ok, Signal, ticked, ended}
use mkq.Worker.Config.{second, millisecond, default_config}
use mkq.Worker.Finish.{Worker}
use mkq.Worker.Heartbeat.{cancelled, beat, heartbeat}
use mkq.Worker.Heartbeat.Lease.{Leases, beats, tick_ns, heartbeat-keeps_lock, heartbeat-lapses}
use mkq.Tests.Setup.{open_world, worker, job_id, token}

-- Redis extends the lock at every beat.
abbrev extending : World
extending = record open_world { redis = λ h c. ok (int (pos 1)) }

abbrev by_default : Worker
by_default = record worker { cfg = default_config }

-- Each call so far was a beat at its tick.
abbrev lease : Leases extending by_default token job_id
lease = record {
  time = λ h. (length h + 1) * (15 * second);
  renewed = λ h. length h * (15 * second);
  extends = λ h inside. (refl, omega arith);
  refuses = λ h past. absurd (omega arith);
}

abbrev three_beats : List Signal
three_beats = ticked [] ∷ ticked [] ∷ ticked [] ∷ ended ∷ []

heartbeat-keeps_lock_example :
    let (b, h) = heartbeat extending by_default token job_id three_beats [] in
    (b ≢ cancelled)
    × (lease.renewed []
          + beats extending by_default token job_id lease three_beats
            * tick_ns extending by_default token job_id
        ≤ lease.renewed h)
heartbeat-keeps_lock_example =
    heartbeat-keeps_lock extending by_default token job_id lease (30 * second) (10 * second)
      three_beats [] refl (omega arith) (omega arith) (omega arith)

-- Redis finds the lock gone.
abbrev refusing : World
refusing = record open_world { redis = λ h c. ok (int (pos 0)) }

abbrev hasty : Worker
hasty = record worker { cfg = record default_config { lock_duration = pos (500 * millisecond) } }

abbrev gone : Leases refusing hasty token job_id
gone = record {
  time = λ h. (length h + 1) * second;
  renewed = λ h. length h;
  extends = λ h inside. absurd (omega arith);
  refuses = λ h past. refl;
}

heartbeat-lapses_example :
    heartbeat refusing hasty token job_id (ticked [] ∷ []) []
    ≡ (cancelled, beat refusing hasty token job_id ∷ [])
heartbeat-lapses_example =
    heartbeat-lapses refusing hasty token job_id gone (500 * millisecond) 0 [] [] [] refl
      (omega arith) (omega arith)
