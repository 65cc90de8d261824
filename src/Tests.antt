-- ===== src/Tests.antt =====
-- Tests: each theorem at a concrete input.
pub mod Setup
mod Jobs
mod Heartbeats
mod Lifetime
mod Delays
mod Stored
mod Producer
mod Operators
mod Scripts
mod Inspect
mod Stream
mod Crons
mod Pools
mod Registry
mod Emissions
mod Numbers
mod Schedules
mod Discovery
