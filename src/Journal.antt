-- ===== src/Journal.antt =====
-- src/journal.rs: the durable journal of a run, and its one fail-closed reading.
pub mod Records
pub mod Errors
pub mod Fingerprint
pub mod WholeRun
pub mod Replay
pub mod Ending
pub mod Credit
pub mod Summary
