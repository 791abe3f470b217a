-- ===== src/Guard.antt =====
-- The guard of the submissions (src/job_applier/automation/safety_guard.py).
pub mod Limits
pub mod Safety
pub mod Outcome
