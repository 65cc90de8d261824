-- ===== src/Worker/Stalled/Scans.antt =====
-- worker.go: how often `stalledLoop` scans.
use mkq.Prelude.{ℕ, ◌+◌, [], ◌∷◌}
use mkq.Redis.{Call, eval, History}
use mkq.Redis.Scripts.{move_stalled_jobs_to_wait}
use mkq.Worker.Finish.{Worker}

abbrev is_scan : Call → ℕ
is_scan (eval move_stalled_jobs_to_wait keys args) = 1
is_scan _ = 0

-- The number of scans among some calls.
abbrev pub scans : History → ℕ
scans [] = 0
scans (c ∷ h) = is_scan c + scans h
