-- ===== src/Worker.antt =====
-- worker.go and worker_options.go: the worker.
pub mod Config
pub mod Wait
pub mod Retry
pub mod Failures
pub mod Finish
pub mod Finalise
pub mod Heartbeat
pub mod Run
pub mod Dispatch
pub mod Shutdown
pub mod Stalled
