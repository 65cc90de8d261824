-- ===== src/Schedule.antt =====
-- schedule.go, internal/proto/schedule_args.go, and worker.go's `rescheduleNext`.
pub mod Opts
pub mod Options
pub mod Reschedule
pub mod Upsert
