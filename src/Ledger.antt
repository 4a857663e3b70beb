-- ===== src/Ledger.antt =====
-- The crate of the audit ledger, crates/workflow-ledger.
pub mod Chain
