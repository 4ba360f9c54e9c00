-- ===== src/Examples.antt =====
-- The theorems at concrete inputs, on whole numbers of units of 10^-28.
mod Orders
mod Journals
mod Waits
mod Placing
mod Envelope
mod Runs
mod Resume
mod Command
