-- ===== src/Actions/Policy.antt =====
-- app/agentic/policies/engine.py, with the definitions of actions (app/agentic/actions/definitions.py and
-- registry.py) and the records of app/schemas/policy_decision.py. Texts of reasons are left out: each
-- stands beside its code.
use ai_game.Base.{
  ℕ, Bool, true, false, not, ◌&&◌, Option, none, some, List, [], ◌∷◌, ◌==◌, any, if◌then◌else◌,
  Text, text_eq,
}
use ai_game.Errors.{
  Result, ok, ensure, ◌>>◌, required, ◌>>=◌, unexpected, action_not_found, action_not_allowed,
}
use ai_game.Constants.{
  UserRole, CampaignStatus, status_in, AgentName, agent_eq, PolicyDecision, safe, approval_required,
  forbidden,
}
use ai_game.Workflow.Tables.{Db}
use ai_game.Actions.Rules.{Fields, dict, is_forbidden_alias, contains_nested_danger}

-- The codes of the engine, and the two that the executor writes over them.
pub data ReasonCode : Type 0 where
  forbidden_action unknown_action agent_not_allowed dangerous_arguments : ReasonCode
  invalid_arguments action_scope_mismatch campaign_state_not_allowed : ReasonCode
  workflow_state_not_allowed safe_internal_action human_approval_required : ReasonCode
  default_deny policy_reevaluation_denied policy_reevaluation_approval_required : ReasonCode

-- `PolicyEvaluationContext`: the fields that the engine and the columns of a request take from it.
pub record PolicyContext : Type 0 where
  pub agent_name : AgentName
  pub action_name : Text
  pub arguments : Fields
  pub campaign_id : ℕ
  pub workflow_id : ℕ
  pub revision_number : ℕ
  pub campaign_status : CampaignStatus
  pub workflow_status : CampaignStatus

-- `PolicyEvaluationResult`
pub record PolicyResult : Type 0 where
  pub decision : PolicyDecision
  pub reason_code : ReasonCode
  pub required_role : Option UserRole
  pub expires_in_seconds : Option ℕ
  pub reversible : Bool

-- `ActionExecutionGuard`
pub record ActionExecutionGuard : Type 0 where
  pub campaign_id : ℕ
  pub workflow_id : ℕ
  pub expected_campaign_status : CampaignStatus
  pub expected_campaign_version : ℕ
  pub expected_workflow_status : CampaignStatus
  pub expected_revision_number : ℕ

-- Validated arguments: the attributes of the scope and of the brief, which an input model may lack, and the
-- number of characters of the texts.
pub record ActionInput : Type 0 where
  pub campaign_id : Option ℕ
  pub workflow_id : Option ℕ
  pub revision_number : Option ℕ
  pub text_length : ℕ
  pub tone : Option Text
  pub target_audience : Option Text
  pub promotion : Option Text

-- `ActionDefinition`. The validation of the input model is pydantic's; a handler works on the rows of
-- campaigns and workflows.
pub record ActionDefinition : Type 0 where
  pub name : Text
  pub model_validate : Fields → Option ActionInput
  pub default_policy : PolicyDecision
  pub reversible : Bool
  pub allowed_agents : List AgentName
  pub handler : ActionInput → ActionExecutionGuard → Db → Result (Unit {0}) × Db
  pub required_role : Option UserRole
  pub allowed_campaign_statuses : List CampaignStatus
  pub allowed_workflow_statuses : List CampaignStatus
  pub approval_ttl_seconds : Option ℕ

-- `ActionRegistry._definitions.get`
unfoldable pub find_definition : Text → List ActionDefinition → Option ActionDefinition
find_definition name [] = none
find_definition name (definition ∷ rest) =
    if text_eq name definition.name then some definition else find_definition name rest

-- `ActionRegistry(definitions)`: the `ValueError` of a name that comes twice is `unexpected`.
unfoldable pub action_registry : List ActionDefinition → Result (List ActionDefinition)
action_registry [] = ok []
action_registry (definition ∷ rest) = do
  ensure (not (any (λ (d : ActionDefinition). text_eq d.name definition.name) rest)) unexpected
  registered ← action_registry rest
  ok (definition ∷ registered)

unfoldable pub is_allowed_agent : AgentName → ActionDefinition → Bool
is_allowed_agent agent_name definition = any (agent_eq agent_name) definition.allowed_agents

-- `get_for_agent`
unfoldable pub get_for_agent : AgentName → Text → List ActionDefinition → Result ActionDefinition
unfolding find_definition is_allowed_agent
get_for_agent agent_name name registry = do
  definition ← required (find_definition name registry) action_not_found
  ensure (is_allowed_agent agent_name definition) action_not_allowed
  ok definition

-- `_deny`
abbrev pub deny : ReasonCode → PolicyResult
deny code = record {
  decision = forbidden;
  reason_code = code;
  required_role = none;
  expires_in_seconds = none;
  reversible = false;
}

-- `getattr(validated_arguments, attribute, value) == value`
abbrev pub agrees : Option ℕ → ℕ → Bool
agrees none value = true
agrees (some attribute) value = attribute == value

unfoldable pub is_in_scope : ActionInput → PolicyContext → Bool
is_in_scope input context =
    agrees input.campaign_id context.campaign_id
    && (agrees input.workflow_id context.workflow_id
        && agrees input.revision_number context.revision_number)

-- `not allowed or status in allowed`
unfoldable pub allows_status : List CampaignStatus → CampaignStatus → Bool
allows_status [] status = true
allows_status (s ∷ allowed) status = status_in status (s ∷ allowed)

-- The last two tests of `evaluate`.
unfoldable pub default_result : ActionDefinition → PolicyResult
default_result definition = elim definition.default_policy [
  | safe ↦ record {
    decision = safe;
    reason_code = safe_internal_action;
    required_role = none;
    expires_in_seconds = none;
    reversible = definition.reversible;
  }
  | approval_required ↦ record {
    decision = approval_required;
    reason_code = human_approval_required;
    required_role = definition.required_role;
    expires_in_seconds = definition.approval_ttl_seconds;
    reversible = definition.reversible;
  }
  | forbidden ↦ deny default_deny
]

-- The tests after the arguments were validated.
unfoldable pub evaluate_input : PolicyContext → ActionDefinition → ActionInput → PolicyResult
evaluate_input context definition input =
    if not (is_in_scope input context)
    then deny action_scope_mismatch
    else if not (allows_status definition.allowed_campaign_statuses context.campaign_status)
    then deny campaign_state_not_allowed
    else if not (allows_status definition.allowed_workflow_statuses context.workflow_status)
    then deny workflow_state_not_allowed
    else default_result definition

-- The tests of a registered action.
unfoldable pub evaluate_registered : PolicyContext → ActionDefinition → PolicyResult
evaluate_registered context definition =
    if not (is_allowed_agent context.agent_name definition)
    then deny agent_not_allowed
    else if contains_nested_danger (dict context.arguments)
    then deny dangerous_arguments
    else (elim (definition.model_validate context.arguments) [
      | none ↦ deny invalid_arguments
      | some input ↦ evaluate_input context definition input
    ])

-- `PolicyEngine.evaluate`
unfoldable pub evaluate : PolicyContext → Option ActionDefinition → PolicyResult
evaluate context found =
    if is_forbidden_alias context.action_name then deny forbidden_action else (elim found [
      | none ↦ deny unknown_action
      | some definition ↦
          if text_eq context.action_name definition.name
          then evaluate_registered context definition
          else deny unknown_action
    ])
