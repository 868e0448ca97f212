-- ===== src/Core.antt =====
-- crates/workflow-core: the state machines and validators of the control plane.
pub mod Workflow
pub mod Task
pub mod Request
pub mod Goal
pub mod Lease
pub mod Verdict
pub mod Review
pub mod Role
pub mod Path
pub mod Dag
pub mod Digest
pub mod Evidence
pub mod Candidate
pub mod Architecture
pub mod Routing
