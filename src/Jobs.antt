-- ===== src/Jobs.antt =====
-- app/jobs and app/repositories/job_repository.py: the queue of background jobs, its leases and retries.
pub mod Retry
pub mod Tables
pub mod Attempts
pub mod Leases
pub mod Finish
pub mod Queue
pub mod Sound
pub mod Steps
pub mod Endings
pub mod Growth
pub mod Batches
pub mod Leasing
pub mod Reclaiming
pub mod Control
pub mod Enqueue
pub mod Calls
pub mod Repeated
pub mod Succeeded
pub mod Delay
pub mod Stranded
pub mod Fencing
mod Tests
