-- ===== src/Workflow/Failures.antt =====
-- `CONFLICT_ERRORS` and `EXECUTION_FAILURE_ERRORS` of app/workflows/campaign_workflow.py, with the
-- subclasses that `except` catches too.
use ai_game.Base.{Bool, true, false}
use ai_game.Errors.{Error}

unfoldable pub is_conflict_error : Error → Bool
is_conflict_error Error.approval_already_decided = true
is_conflict_error Error.approval_not_allowed = true
is_conflict_error Error.authentication = true
is_conflict_error Error.authorization = true
is_conflict_error Error.invalid_state_transition = true
is_conflict_error Error.version_conflict = true
is_conflict_error Error.workflow_already_active = true
is_conflict_error Error.workflow_creation_not_allowed = true
is_conflict_error Error.workflow_not_found = true
is_conflict_error Error.campaign_not_found = true
is_conflict_error _ = false

-- `AgentExecutionError` and its subclasses
unfoldable pub is_agent_execution_error : Error → Bool
is_agent_execution_error Error.agent_execution = true
is_agent_execution_error Error.agent_execution_cancelled = true
is_agent_execution_error Error.agent_output_validation = true
is_agent_execution_error Error.agent_iteration_limit = true
is_agent_execution_error Error.agent_llm_call_limit = true
is_agent_execution_error Error.agent_tool_call_limit = true
is_agent_execution_error Error.agent_timeout = true
is_agent_execution_error Error.tool_not_found = true
is_agent_execution_error Error.tool_not_allowed = true
is_agent_execution_error Error.tool_input_validation = true
is_agent_execution_error Error.tool_execution = true
is_agent_execution_error Error.tool_timeout = true
is_agent_execution_error Error.tool_cancelled = true
is_agent_execution_error Error.invalid_agent_run_transition = true
is_agent_execution_error Error.invalid_tool_call_transition = true
is_agent_execution_error Error.agent_context = true
is_agent_execution_error Error.agent_action_proposal_limit = true
is_agent_execution_error _ = false

unfoldable pub is_execution_failure : Error → Bool
unfolding is_agent_execution_error
is_execution_failure Error.llm_provider = true
is_execution_failure Error.llm_provider_unavailable = true
is_execution_failure Error.llm_rate_limit = true
is_execution_failure Error.llm_response = true
is_execution_failure Error.llm_timeout = true
is_execution_failure Error.workflow_execution = true
is_execution_failure Error.workflow_limit = true
is_execution_failure e = is_agent_execution_error e
