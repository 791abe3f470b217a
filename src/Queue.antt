-- ===== src/Queue.antt =====
-- The durable automation queue (src/job_applier/automation/queue.py).
pub mod State
pub mod Db
pub mod Events
pub mod Enqueue
pub mod Claim
pub mod Transition
pub mod Attempt
pub mod Intent
pub mod Complete
pub mod Control
pub mod Takeover
pub mod Fence
pub mod Alert
pub mod Ambiguity
pub mod Outbox
pub mod Failure
pub mod Named
pub mod Cancel
pub mod Skip
pub mod Resolve
pub mod Recovery
pub mod Requeue
pub mod Lifecycle
