-- ===== src/Events.antt =====
-- events.go: the events stream of a queue, and the loop that reads it.
pub mod Decode
pub mod Subscribe
