-- ===== src/Agents/Tables.antt =====
-- The tables of agent runs and tool calls (app/database/models.py). The columns that say which prompt, model
-- and versions a run used, the arguments of a tool call, messages and durations are left out.
use ai_game.Base.{ℕ, Bool, true, false, ◌||◌, Option, List, find, put, Text}
use ai_game.Errors.{Error}
use ai_game.Constants.{AgentName, AgentRunStatus, ToolCallStatus}

-- `AgentRunModel`
pub record AgentRun : Type 0 where
  pub agent_run_id : ℕ
  pub workflow_id : ℕ
  pub campaign_id : ℕ
  pub agent_name : AgentName
  pub status : AgentRunStatus
  pub iteration_count : ℕ
  pub llm_call_count : ℕ
  pub tool_call_count : ℕ
  pub completed_at : Option ℕ
  pub error_code : Option Error

-- `AgentToolCallModel`
pub record ToolCall : Type 0 where
  pub tool_call_id : ℕ
  pub agent_run_id : ℕ
  pub tool_name : Text
  pub status : ToolCallStatus
  pub error_code : Option Error
  pub completed_at : Option ℕ

abbrev pub run_key : AgentRun → ℕ
run_key run = run.agent_run_id

abbrev pub call_key : ToolCall → ℕ
call_key call = call.tool_call_id

-- `AgentRunRepository.get_by_id`
abbrev pub find_run : ℕ → List AgentRun → Option AgentRun
find_run = find run_key

pub record Audit : Type 0 where
  pub runs : List AgentRun
  pub tool_calls : List ToolCall

abbrev pub save_run : AgentRun → Audit → Audit
save_run run audit = record audit { runs = put run_key run audit.runs }

abbrev pub save_call : ToolCall → Audit → Audit
save_call call audit = record audit { tool_calls = put call_key call audit.tool_calls }

abbrev pub is_created : AgentRunStatus → Bool
is_created AgentRunStatus.created = true
is_created _ = false

abbrev pub is_running : AgentRunStatus → Bool
is_running AgentRunStatus.running = true
is_running _ = false

abbrev pub is_active : AgentRunStatus → Bool
is_active status = is_created status || is_running status
