-- ===== src/Media.antt =====
-- app/media, app/repositories/media_repository.py and app/jobs/lifecycle.py: images and storyboards that
-- jobs generate and humans review.
pub mod Tables
pub mod Repository
pub mod Attempts
pub mod Processor
pub mod Lifecycle
pub mod Review
pub mod Worker
pub mod Finalized
pub mod Numbers
pub mod Rows
pub mod Moves
pub mod Calls
pub mod Reviewed
pub mod Histories
pub mod Orphans
pub mod Generation
pub mod Delivery
mod Samples
mod Tests
