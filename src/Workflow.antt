-- ===== src/Workflow.antt =====
-- The campaign workflow (app/workflows, app/service/workflow_service.py, app/service/approval_service.py
-- and the repositories they write through).
pub mod State
pub mod Tables
pub mod Checkpoints
pub mod Review
pub mod Failures
pub mod Run
pub mod Service
pub mod Creation
pub mod Approval
pub mod Pairs
pub mod Effects
pub mod Rounds
pub mod Automaton
pub mod Progress
pub mod Advance
pub mod Outputs
pub mod Descent
pub mod Termination
pub mod Outcome
pub mod Stuck
pub mod Rerun
pub mod Decisions
mod Tests
mod CreationTests
