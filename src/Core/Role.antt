-- ===== src/Core/Role.antt =====
-- crates/workflow-core/src/role.rs: the roles of a workflow.
pub data WorkflowRole : Type 0 where
  architect executor functional_reviewer security_architecture_reviewer arbiter : WorkflowRole
