-- ===== src/Actions/Campaign.antt =====
-- app/agentic/actions/campaign_actions.py: the seven actions that agents may propose, and their handlers.
use ai_game.Base.{ℕ, ◌+◌, true, Option, none, some, List, [], ◌∷◌, leb, Text, codes}
use ai_game.Errors.{Result, ok, ensure, ◌>>=◌, ◌>>◌, Tx, transact, unexpected}
use ai_game.Constants.{
  UserRole, reviewer, manager, CampaignStatus, received, needs_clarification, analyzing, generating,
  reviewing, manual_review_required, revision_required, generate_content, human_review, AgentName,
  brief_analyst, content_generator, content_reviewer, safe, approval_required,
}
use ai_game.Workflow.Tables.{Db}
use ai_game.Actions.Rules.{Fields}
use ai_game.Actions.Policy.{ActionExecutionGuard, ActionInput, ActionDefinition}
use ai_game.Actions.Guard.{validate, metadata_update, update_metadata, guarded_transition}

-- The input models, which pydantic validates.
pub record InputModels : Type 0 where
  pub internal_recommendation : Fields → Option ActionInput
  pub campaign_summary : Fields → Option ActionInput
  pub revision_draft : Fields → Option ActionInput
  pub update_campaign_metadata : Fields → Option ActionInput
  pub regeneration : Fields → Option ActionInput
  pub manual_review_note : Fields → Option ActionInput
  pub mark_manual_review : Fields → Option ActionInput

-- `InternalActionResult`: its summary has at most 5000 characters.
unfoldable pub internal_action_result : ℕ → Result (Unit {0})
internal_action_result summary_length = ensure (leb summary_length 5000) unexpected

-- A handler that only looks at the rows: `create_recommendation`, `generate_summary` and
-- `add_manual_review_note`, whose summaries are short.
unfoldable pub validated : ActionExecutionGuard → Tx Db (Unit {0})
unfolding validate
validated guard db = do (_, db') ← validate guard db; ok (tt, db')

-- `prepare_revision`: its summary repeats the feedback and the instructions of the input.
unfoldable pub prepare_revision : ActionInput → ActionExecutionGuard → Tx Db (Unit {0})
unfolding validate internal_action_result
prepare_revision input guard db = do
  (_, db') ← validate guard db
  internal_action_result (39 + 16 + input.text_length)
  ok (tt, db')

-- `update_metadata` of the handlers
unfoldable pub update_campaign_metadata : ActionInput → ActionExecutionGuard → Tx Db (Unit {0})
unfolding metadata_update update_metadata
update_campaign_metadata input guard db = do
  payload ← metadata_update input.tone input.target_audience input.promotion
  update_metadata payload guard db

abbrev all_agents : List AgentName
all_agents = brief_analyst ∷ content_generator ∷ content_reviewer ∷ []

unfoldable pub active_states : List CampaignStatus
active_states =
    analyzing ∷ generating ∷ reviewing ∷ manual_review_required ∷ CampaignStatus.pending_approval
    ∷ revision_required ∷ []

-- The two kinds of definitions.
abbrev safe_action :
    Text
    → (Fields → Option ActionInput)
    → List AgentName
    → (ActionInput → ActionExecutionGuard → Tx Db (Unit {0}))
    → List CampaignStatus
    → ActionDefinition
safe_action name input_model agents handler statuses = record {
  name = name;
  model_validate = input_model;
  default_policy = safe;
  reversible = true;
  allowed_agents = agents;
  handler = λ input guard. transact (handler input guard);
  required_role = none;
  allowed_campaign_statuses = statuses;
  allowed_workflow_statuses = statuses;
  approval_ttl_seconds = none;
}

abbrev approved_action :
    ℕ
    → Text
    → (Fields → Option ActionInput)
    → List AgentName
    → (ActionInput → ActionExecutionGuard → Tx Db (Unit {0}))
    → UserRole
    → List CampaignStatus
    → ActionDefinition
approved_action ttl name input_model agents handler role statuses = record {
  name = name;
  model_validate = input_model;
  default_policy = approval_required;
  reversible = true;
  allowed_agents = agents;
  handler = λ input guard. transact (handler input guard);
  required_role = some role;
  allowed_campaign_statuses = statuses;
  allowed_workflow_statuses = statuses;
  approval_ttl_seconds = some ttl;
}

-- `build_default_action_registry`, under the setting `action_approval_ttl_seconds`
unfoldable pub default_definitions : ℕ → InputModels → List ActionDefinition
unfolding validated prepare_revision update_campaign_metadata guarded_transition active_states
default_definitions ttl models =
    safe_action (codes "create_internal_recommendation") models.internal_recommendation all_agents
      (λ _ guard. validated guard) active_states
    ∷ safe_action (codes "generate_internal_campaign_summary") models.campaign_summary all_agents
        (λ _ guard. validated guard) active_states
    ∷ safe_action (codes "prepare_revision_draft") models.revision_draft (content_generator ∷ [])
        prepare_revision (revision_required ∷ generating ∷ [])
    ∷ approved_action ttl (codes "update_campaign_metadata") models.update_campaign_metadata
        all_agents update_campaign_metadata manager
        (received ∷ needs_clarification ∷ revision_required ∷ [])
    ∷ approved_action ttl (codes "request_campaign_regeneration") models.regeneration
        (content_reviewer ∷ []) (λ _ guard. guarded_transition guard generating generate_content)
        manager (reviewing ∷ [])
    ∷ approved_action ttl (codes "add_manual_review_note") models.manual_review_note
        (content_reviewer ∷ []) (λ _ guard. validated guard) reviewer
        (reviewing ∷ manual_review_required ∷ [])
    ∷ approved_action ttl (codes "mark_for_manual_review") models.mark_manual_review
        (content_reviewer ∷ [])
        (λ _ guard. guarded_transition guard manual_review_required human_review) reviewer
        (reviewing ∷ [])
    ∷ []
