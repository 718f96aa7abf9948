-- ===== src/Outbox.antt =====
-- app/outbox and app/repositories/outbox_repository.py: the events that transactions leave for consumers.
pub mod Tables
pub mod Repository
pub mod Moves
pub mod Calls
pub mod Tokens
pub mod Staging
pub mod Dispatcher
pub mod Once
mod Tests
