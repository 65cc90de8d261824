-- ===== src/Queue.antt =====
-- queue.go and options.go: the producer's side of a queue.
pub mod Define
pub mod Options
pub mod Add
pub mod Get
pub mod Retries
