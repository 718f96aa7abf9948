-- ===== src/Actions/Tables.antt =====
-- The tables of action requests and their executions (app/database/models.py), and the events that the
-- executor stages. Reason texts, messages, durations and creation times are left out; the idempotency key,
-- a hash, is a number.
use ai_game.Base.{
  ℕ, Bool, false, Option, List, [], ◌∷◌, ◌++◌, ◌==◌, any, find, put, Text, if◌then◌else◌,
}
use ai_game.Constants.{
  UserRole, AgentName, PolicyDecision, ActionRequestStatus, ActionExecutionStatus,
  MemoryRecordStatus, CampaignStatus,
}
use ai_game.Errors.{Error}
use ai_game.Workflow.Tables.{Db}
use ai_game.Actions.Rules.{Fields}
use ai_game.Actions.Policy.{ReasonCode}

-- `AgentActionRequestModel`
pub record ActionRequest : Type 0 where
  pub action_request_id : ℕ
  pub agent_run_id : ℕ
  pub workflow_id : ℕ
  pub campaign_id : ℕ
  pub agent_name : AgentName
  pub action_name : Text
  pub arguments : Fields
  pub policy_decision : PolicyDecision
  pub policy_reason_code : ReasonCode
  pub required_role : Option UserRole
  pub last_policy_decision : PolicyDecision
  pub last_policy_reason_code : ReasonCode
  pub last_required_role : Option UserRole
  pub last_policy_campaign_status : CampaignStatus
  pub last_policy_workflow_status : CampaignStatus
  pub last_policy_revision_number : ℕ
  pub last_policy_evaluated_at : ℕ
  pub status : ActionRequestStatus
  pub expires_at : Option ℕ
  pub approved_by : Option Text
  pub approved_role : Option UserRole
  pub approved_at : Option ℕ
  pub rejected_by : Option Text
  pub rejected_at : Option ℕ
  pub version : ℕ
  pub idempotency_key : ℕ

-- `AgentActionExecutionModel`
pub record ActionExecution : Type 0 where
  pub action_execution_id : ℕ
  pub action_request_id : ℕ
  pub status : ActionExecutionStatus
  pub idempotency_key : ℕ
  pub started_at : Option ℕ
  pub completed_at : Option ℕ
  pub error_code : Option Error
  pub reserved_campaign_status : CampaignStatus
  pub reserved_campaign_version : ℕ
  pub reserved_workflow_status : CampaignStatus
  pub reserved_revision_number : ℕ
  pub memory_record_status : MemoryRecordStatus
  pub memory_record_attempts : ℕ
  pub memory_record_error_code : Option Error
  pub memory_recorded_at : Option ℕ

-- The events of the executor. Their keys are `action-execution:<id>:` and `completed`, `failed` or
-- `memory-reconciliation`.
pub data ActionEvent : Type 0 where
  action_completed : (execution_id request_id : ℕ) → Text → ActionEvent
  action_failed : (execution_id request_id : ℕ) → Text → Error → ActionEvent
  memory_reconciliation_required : (execution_id request_id : ℕ) → Error → ActionEvent

unfoldable pub same_event_key : ActionEvent → ActionEvent → Bool
same_event_key (action_completed i _ _) (action_completed j _ _) = i == j
same_event_key (action_failed i _ _ _) (action_failed j _ _ _) = i == j
same_event_key (memory_reconciliation_required i _ _) (memory_reconciliation_required j _ _) =
    i == j
same_event_key _ _ = false

-- The tables that an action reads and writes.
pub record Store : Type 0 where
  pub rows : Db
  pub requests : List ActionRequest
  pub executions : List ActionExecution
  pub events : List ActionEvent

abbrev pub request_key : ActionRequest → ℕ
request_key request = request.action_request_id

abbrev pub execution_key : ActionExecution → ℕ
execution_key execution = execution.action_execution_id

-- `get_by_id` and `get_by_id_for_update` of the two repositories
abbrev pub find_request : ℕ → Store → Option ActionRequest
find_request action_request_id store = find request_key action_request_id store.requests

abbrev pub find_execution : ℕ → Store → Option ActionExecution
find_execution action_execution_id store = find execution_key action_execution_id store.executions

abbrev pub save_request : ActionRequest → Store → Store
save_request request store = record store { requests = put request_key request store.requests }

abbrev pub save_execution : ActionExecution → Store → Store
save_execution execution store = record store {
  executions = put execution_key execution store.executions;
}

-- `OutboxService.add_event`
unfoldable pub stage_action_event : ActionEvent → Store → Store
unfolding same_event_key
stage_action_event event store =
    if any (same_event_key event) store.events
    then store
    else record store { events = store.events ++ event ∷ [] }
