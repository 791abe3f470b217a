-- ===== src/Ops.antt =====
-- The operations around the queue (src/job_applier/ops).
pub mod EmergencyStop
pub mod DiskGuard
