-- ===== src/Tests.antt =====
-- A sample book in whole ticks, runs of the model on it, and the theorems at concrete inputs.
pub mod Sample
pub mod Runs
pub mod Orders
pub mod Threads
pub mod Recorded
pub mod Replayed
pub mod Logged
