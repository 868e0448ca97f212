-- ===== src/Ledger.antt =====
-- crates/workflow-ledger: the hash-linked log.
pub mod Chain
