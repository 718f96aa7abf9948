-- ===== src/Actions.antt =====
-- app/agentic/policies and app/agentic/actions, and their service and repositories: the actions that
-- agents propose, the policy that judges them, and the humans who decide on them.
pub mod Rules
pub mod Dangers
pub mod Names
pub mod Policy
pub mod Permission
pub mod Guard
pub mod Campaign
pub mod Acts
pub mod Tables
pub mod Requests
pub mod Executions
pub mod Reserve
pub mod Finish
pub mod Clearance
pub mod Service
pub mod Approvals
pub mod Life
pub mod Ledger
pub mod Effects
pub mod Reserving
pub mod Calls
pub mod Remembering
pub mod Histories
mod Tests
