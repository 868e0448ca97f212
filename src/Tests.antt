-- ===== src/Tests.antt =====
-- Runs of the modelled code on small inputs, and the theorems at them.
mod Workflow
mod Records
mod Verdicts
mod Frames
mod Chains
mod Scheduler
mod Plans
mod Tables
mod Codes
mod Stores
mod Grants
mod Manifests
