-- ===== src/Ipc.antt =====
-- The crate of the local protocol, crates/workflow-ipc.
pub mod Frame
