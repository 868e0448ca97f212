-- ===== src/Daemon.antt =====
-- crates/workflowd: scheduling and admission of the daemon's work.
pub mod Queue
pub mod Classes
pub mod Admission
