-- ===== src/Agents/Service.antt =====
-- app/service/agent_run_service.py and the repositories of runs and tool calls. The clock and new ids are
-- arguments.
use ai_game.Base.{
  ℕ, ◌+◌, Bool, true, false, not, ◌&&◌, ◌||◌, Option, none, some, List, [], ◌∷◌, ◌++◌, ◌==◌, any,
  find, is_none, if◌then◌else◌, Text,
}
use ai_game.Errors.{
  Error, Result, ok, ensure, required, ◌>>=◌, ◌>>◌, agent_run_not_found, agent_run_already_active,
  invalid_agent_run_transition, invalid_tool_call_transition, persistence,
}
use ai_game.Constants.{
  AgentName, agent_eq, AgentRunStatus, ToolCallStatus, limit_exceeded, requested,
}
use ai_game.Agents.Tables.{
  AgentRun, ToolCall, Audit, call_key, find_run, save_run, save_call, is_created, is_running,
  is_active,
}

-- `AgentRunRepository.find_active`, of which the service asks only whether it finds a row
unfoldable pub has_active_run : (workflow_id : ℕ) → AgentName → List AgentRun → Bool
has_active_run workflow_id agent_name = any (λ (run : AgentRun).
    (run.workflow_id == workflow_id)
    && (agent_eq run.agent_name agent_name && is_active run.status))

-- The row of `AgentRunRepository.create`.
abbrev pub new_run : (id workflow_id campaign_id : ℕ) → AgentName → AgentRun
new_run id workflow_id campaign_id agent_name = record {
  agent_run_id = id;
  workflow_id = workflow_id;
  campaign_id = campaign_id;
  agent_name = agent_name;
  status = AgentRunStatus.created;
  iteration_count = 0;
  llm_call_count = 0;
  tool_call_count = 0;
  completed_at = none;
  error_code = none;
}

-- `create_run`; the index `uq_agent_runs_one_active_specialist` repeats its test.
unfoldable pub create_run : (id workflow_id campaign_id : ℕ) → AgentName → Audit → Result Audit
create_run id workflow_id campaign_id agent_name audit = do
  ensure (not (has_active_run workflow_id agent_name audit.runs)) agent_run_already_active
  ensure (is_none (find_run id audit.runs)) persistence
  ok (record audit { runs = audit.runs ++ new_run id workflow_id campaign_id agent_name ∷ [] })

-- `_required_run` and `_require_run_status`, then a change of the row
abbrev pub change_run : (AgentRunStatus → Bool) → (AgentRun → AgentRun) → ℕ → Audit → Result Audit
change_run allowed change id audit = do
  run ← required (find_run id audit.runs) agent_run_not_found
  ensure (allowed run.status) invalid_agent_run_transition
  ok (save_run (change run) audit)

abbrev pub started_run : AgentRun → AgentRun
started_run run = record run { status = AgentRunStatus.running }

unfoldable pub start_run : ℕ → Audit → Result Audit
start_run = change_run is_created started_run

abbrev pub iterated_run : AgentRun → AgentRun
iterated_run run = record run { iteration_count = run.iteration_count + 1 }

unfoldable pub record_iteration : ℕ → Audit → Result Audit
record_iteration = change_run is_running iterated_run

abbrev pub called_run : AgentRun → AgentRun
called_run run = record run { llm_call_count = run.llm_call_count + 1 }

unfoldable pub record_run_llm_call : ℕ → Audit → Result Audit
record_run_llm_call = change_run is_running called_run

-- `AgentRunRepository.finish`
abbrev pub finished_run : AgentRunStatus → ℕ → Option Error → AgentRun → AgentRun
finished_run status now error_code run = record run {
  status = status;
  error_code = error_code;
  completed_at = some now;
}

unfoldable pub complete_run : ℕ → ℕ → Audit → Result Audit
complete_run now = change_run is_running (finished_run AgentRunStatus.completed now none)

unfoldable pub fail_run : ℕ → Error → (limit : Bool) → ℕ → Audit → Result Audit
fail_run now error limit =
    change_run is_active
      (finished_run (if limit then limit_exceeded else AgentRunStatus.failed) now (some error))

abbrev pub counted_run : AgentRun → AgentRun
counted_run run = record run { tool_call_count = run.tool_call_count + 1 }

-- The row of `AgentToolCallRepository.create`.
abbrev pub new_call : (id run_id : ℕ) → Text → ToolCall
new_call id run_id tool_name = record {
  tool_call_id = id;
  agent_run_id = run_id;
  tool_name = tool_name;
  status = requested;
  error_code = none;
  completed_at = none;
}

unfoldable pub create_tool_call : (id run_id : ℕ) → Text → Audit → Result Audit
create_tool_call id run_id tool_name audit = do
  run ← required (find_run run_id audit.runs) agent_run_not_found
  ensure (is_running run.status) invalid_agent_run_transition
  ensure (is_none (find call_key id audit.tool_calls)) persistence
  ok (
      save_run (counted_run run)
        (record audit { tool_calls = audit.tool_calls ++ new_call id run_id tool_name ∷ [] }))

abbrev pub is_requested : ToolCallStatus → Bool
is_requested requested = true
is_requested _ = false

abbrev pub is_running_call : ToolCallStatus → Bool
is_running_call ToolCallStatus.running = true
is_running_call _ = false

-- `_required_tool_call` and `_require_tool_status`, then a change of the row
abbrev pub change_call : (ToolCallStatus → Bool) → (ToolCall → ToolCall) → ℕ → Audit → Result Audit
change_call allowed change id audit = do
  call ← required (find call_key id audit.tool_calls) persistence
  ensure (allowed call.status) invalid_tool_call_transition
  ok (save_call (change call) audit)

unfoldable pub start_tool_call : ℕ → Audit → Result Audit
start_tool_call = change_call is_requested (λ call. record call { status = ToolCallStatus.running })

-- The states from which a call may finish in a state.
abbrev pub may_finish : ToolCallStatus → ToolCallStatus → Bool
may_finish ToolCallStatus.completed from = is_running_call from
may_finish ToolCallStatus.rejected from = is_requested from
may_finish ToolCallStatus.failed from = is_requested from || is_running_call from
may_finish _ from = false

-- `AgentToolCallRepository.finish`
abbrev pub finished_call : ToolCallStatus → ℕ → Option Error → ToolCall → ToolCall
finished_call status now error_code call = record call {
  status = status;
  error_code = error_code;
  completed_at = some now;
}

unfoldable pub finish_tool_call : ℕ → ToolCallStatus → Option Error → ℕ → Audit → Result Audit
finish_tool_call now status error = change_call (may_finish status) (finished_call status now error)
