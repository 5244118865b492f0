-- ===== src/Backend.antt =====
-- backend/app: the queue of jobs and what works on it.
pub mod Jobs
pub mod Tables
pub mod Db
pub mod Calls
pub mod Outcomes
pub mod Finalizers
pub mod Queue
pub mod Handlers
pub mod Writes
pub mod Worker
pub mod Stale
pub mod Rewrites
pub mod Report
pub mod Scheduler
pub mod Trigger
pub mod Watch
pub mod Consistency
pub mod Billing
