-- ===== src/Agents/Tools.antt =====
-- app/agentic/tools/registry.py and executor.py: which tools an agent may use, and the run of one call. What
-- a handler, which only reads, comes to is an argument, and so is the validation of its input model.
use ai_game.Base.{
  ℕ, Bool, true, false, not, Option, none, some, List, [], ◌∷◌, ◌==◌, any, map, if◌then◌else◌, Text,
  codes, text_eq, text_in,
}
use ai_game.Errors.{
  Error, Result, ok, err, ensure, required, ◌>>=◌, ◌>>◌, unexpected, tool_not_found,
  tool_not_allowed, tool_input_validation, tool_execution, tool_timeout, tool_cancelled,
}
use ai_game.Constants.{
  AgentName, brief_analyst, content_generator, content_reviewer, ToolCallStatus,
}
use ai_game.Actions.Finish.{is_foreign}
use ai_game.Agents.Tables.{Audit}
use ai_game.Agents.Service.{create_tool_call, start_tool_call, finish_tool_call}

-- `ToolDefinition`: what the registry reads of it.
pub record ToolDefinition : Type 0 where
  pub name : Text
  pub read_only : Bool

-- `DEFAULT_PERMISSIONS`
unfoldable pub default_permissions : AgentName → List Text
default_permissions brief_analyst =
    map codes ("get_previous_workflow_summary" ∷ "get_recent_campaign_memories" ∷ [])
default_permissions content_generator = map codes (
    "get_previous_quality_review" ∷ "get_previous_revision" ∷ "get_previous_review_feedback"
    ∷ "get_previous_action_results" ∷ [])
default_permissions content_reviewer =
    map codes (
      "get_previous_quality_review" ∷ "get_previous_review_feedback" ∷ "get_previous_failures" ∷ [])

-- `ToolRegistry(definitions, permissions)`: its `ValueError` is `unexpected`.
unfoldable pub tool_registry : List ToolDefinition → Result (List ToolDefinition)
tool_registry [] = ok []
tool_registry (definition ∷ rest) = do
  ensure (not (any (λ (d : ToolDefinition). text_eq d.name definition.name) rest)) unexpected
  ensure definition.read_only unexpected
  registered ← tool_registry rest
  ok (definition ∷ registered)

unfoldable pub find_tool : Text → List ToolDefinition → Option ToolDefinition
find_tool name [] = none
find_tool name (definition ∷ rest) =
    if text_eq name definition.name then some definition else find_tool name rest

-- `get_for_agent`
unfoldable pub get_tool_for_agent :
    (AgentName → List Text) → AgentName → Text → List ToolDefinition → Result ToolDefinition
unfolding find_tool
get_tool_for_agent permissions agent_name name tools = do
  definition ← required (find_tool name tools) tool_not_found
  ensure (text_in name (permissions agent_name)) tool_not_allowed
  ok definition

-- `AgentToolRequest`: its name, and the two arguments that the scope is read from.
pub record AgentToolRequest : Type 0 where
  pub tool_name : Text
  pub campaign_id : Option ℕ
  pub workflow_id : Option ℕ
  pub is_valid : Bool

-- `CampaignContext`: the scope of the run.
pub record CampaignContext : Type 0 where
  pub campaign_id : ℕ
  pub workflow_id : ℕ

abbrev is_campaign : Option ℕ → ℕ → Bool
is_campaign none campaign_id = false
is_campaign (some argument) campaign_id = argument == campaign_id

abbrev is_workflow : Option ℕ → ℕ → Bool
is_workflow none workflow_id = true
is_workflow (some argument) workflow_id = argument == workflow_id

-- `_validate_scope`
unfoldable pub validate_scope : AgentToolRequest → CampaignContext → Result (Unit {0})
validate_scope request context = do
  ensure (is_campaign request.campaign_id context.campaign_id) tool_not_allowed
  ensure (is_workflow request.workflow_id context.workflow_id) tool_not_allowed

-- What the handler comes to: a result that `_bounded_result` cuts, an exception, the timeout, or the
-- cancellation of the task.
pub data ToolOutcome : Type 0 where
  returns : ToolOutcome
  raises : Error → ToolOutcome
  exceeds_time : ToolOutcome
  is_cancelled : ToolOutcome

abbrev outcome_error : ToolOutcome → Result (Unit {0})
outcome_error returns = ok tt
outcome_error (raises e) = err e
outcome_error exceeds_time = err tool_timeout
outcome_error is_cancelled = err tool_cancelled

-- The tests before a call starts.
unfoldable pub admit_call :
    List ToolDefinition
    → (AgentName → List Text)
    → AgentName
    → AgentToolRequest
    → CampaignContext
    → Result (Unit {0})
unfolding get_tool_for_agent validate_scope
admit_call tools permissions agent_name request context = do
  _ ← get_tool_for_agent permissions agent_name request.tool_name tools
  validate_scope request context
  ensure request.is_valid tool_input_validation

-- The call is finished, and an exception raised, unless the end of the call raises its own.
abbrev pub ended : Audit → Error → Result Audit → Result (Unit {0}) × Audit
ended audit raised (ok audit') = (err raised, audit')
ended audit raised (err e) = (err e, audit)

-- The status that the handlers of exceptions give a call, by the exception.
abbrev pub failure_status : Error → ToolCallStatus
failure_status tool_not_found = ToolCallStatus.rejected
failure_status tool_not_allowed = ToolCallStatus.rejected
failure_status tool_input_validation = ToolCallStatus.rejected
failure_status _ = ToolCallStatus.failed

abbrev pub as_tool_error : Error → Error
as_tool_error e = if is_foreign e then tool_execution else e

-- `except …`; the call of a cancelled task is finished too, and its `CancelledError`, which is no
-- `ApplicationError`, is raised again.
unfoldable pub end_in_error : (now call_id : ℕ) → Error → Audit → Result (Unit {0}) × Audit
end_in_error now call_id error audit =
    let raised = as_tool_error error in
    ended audit raised (finish_tool_call now (failure_status raised) (some raised) call_id audit)

unfoldable pub end_cancelled : (now call_id : ℕ) → Audit → Result (Unit {0}) × Audit
end_cancelled now call_id audit =
    ended audit unexpected
      (finish_tool_call now ToolCallStatus.failed (some tool_cancelled) call_id audit)

-- The end of the `try` block: the call is finished as completed.
unfoldable pub complete_call : (now call_id : ℕ) → Audit → Result (Unit {0}) × Audit
complete_call now call_id audit =
    elim (finish_tool_call now ToolCallStatus.completed none call_id audit) [
      | ok audit' ↦ (ok tt, audit')
      | err e ↦ end_in_error now call_id e audit
    ]

unfoldable pub run_tool : (now call_id : ℕ) → ToolOutcome → Audit → Result (Unit {0}) × Audit
run_tool now call_id returns audit = complete_call now call_id audit
run_tool now call_id (raises e) audit = end_in_error now call_id e audit
run_tool now call_id exceeds_time audit = end_in_error now call_id tool_timeout audit
run_tool now call_id is_cancelled audit = end_cancelled now call_id audit

-- The `try` block.
unfoldable pub try_call :
    (now call_id : ℕ) → Result (Unit {0}) → ToolOutcome → Audit → Result (Unit {0}) × Audit
try_call now call_id (err e) outcome audit = end_in_error now call_id e audit
try_call now call_id (ok admitted) outcome audit = elim (start_tool_call call_id audit) [
  | err e ↦ end_in_error now call_id e audit
  | ok audit' ↦ run_tool now call_id outcome audit'
]

-- `_execute`
unfoldable pub execute_tool :
    List ToolDefinition
    → (AgentName → List Text)
    → (now call_id run_id : ℕ) → AgentName
    → AgentToolRequest
    → CampaignContext
    → ToolOutcome
    → Audit
    → Result (Unit {0}) × Audit
execute_tool tools permissions now call_id run_id agent_name request context outcome audit =
    elim (create_tool_call call_id run_id request.tool_name audit) [
      | err e ↦ (err e, audit)
      | ok audit' ↦
          try_call now call_id (admit_call tools permissions agent_name request context) outcome
            audit'
    ]
