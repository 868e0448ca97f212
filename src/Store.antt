-- ===== src/Store.antt =====
-- crates/workflow-store: aggregates in SQLite, each command applied once.
pub mod Database
pub mod Contract
pub mod Workflows
pub mod Leases
