-- ===== src/Daemon.antt =====
-- The daemon, crates/workflowd/src.
pub mod Policy
pub mod Capacity
pub mod Queues
pub mod Admission
pub mod Repair
pub mod Goal
pub mod GoalOperations
pub mod FairQueue
