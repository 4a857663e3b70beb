-- ===== src/Store.antt =====
-- The relational store, crates/workflow-store/src.
pub mod Tables
pub mod Workflows
pub mod Goals
pub mod Tasks
pub mod Requests
pub mod Transactions
pub mod Memory
pub mod Invariant
pub mod Keeps
pub mod Retries
pub mod Log
pub mod Replay
pub mod Delivery
pub mod Fresh
pub mod Documents
pub mod Plans
pub mod Revisions
pub mod Links
pub mod Leases
mod Examples
