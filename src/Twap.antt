-- ===== src/Twap.antt =====
-- src/twap.rs, by its parts: the sizing of slices, the schedule, the report, the recovery of what
-- an order has filled.
pub mod Sizing
pub mod Schedule
pub mod Ledger
pub mod Settle
pub mod Reconcile
pub mod Place
pub mod Alo
pub mod Books
pub mod Stats
pub mod Follow
pub mod Slices
pub mod Trades
pub mod Runs
pub mod Resume
