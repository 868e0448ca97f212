-- ===== src/Ipc.antt =====
-- crates/workflow-ipc: the framing of the local protocol.
pub mod Frame
