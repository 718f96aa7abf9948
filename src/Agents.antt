-- ===== src/Agents.antt =====
-- app/agentic/runtime and app/agentic/tools, app/service/agent_run_service.py and the repositories of runs
-- and tool calls: how an agent runs within its budget, and the record of it.
pub mod Tables
pub mod Service
pub mod Tools
pub mod Loop
pub mod Recording
pub mod Rounds
pub mod Budget
pub mod Calls
pub mod Rivals
pub mod Orchestrator
pub mod Endings
mod Tests
