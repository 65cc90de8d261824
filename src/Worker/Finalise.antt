-- ===== src/Worker/Finalise.antt =====
-- worker.go `finalise`: its definition, the calls it makes, and what they amount to.
pub mod Defs
pub mod Calls
pub mod Verdict
pub mod Attempts
pub mod Reports
