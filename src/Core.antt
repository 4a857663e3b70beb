-- ===== src/Core.antt =====
-- The crate of pure domain logic, crates/workflow-core.
pub mod Workflow
pub mod Request
pub mod Goal
pub mod Task
pub mod Lease
pub mod Path
pub mod Verdict
pub mod Routing
pub mod Evidence
pub mod Review
pub mod Dag
pub mod Architecture
pub mod Candidate
