-- ===== src/Actions/Guard.antt =====
-- app/service/action_state_guard_service.py: what an action does to a campaign and its workflow, which must
-- stand as they did when the action was reserved.
use ai_game.Base.{
  ℕ, ◌+◌, Bool, true, ◌&&◌, ◌||◌, Option, none, some, ◌==◌, put, Text, leb, length, is_some,
}
use ai_game.Errors.{
  Result, ok, ensure, required, ◌>>=◌, ◌>>◌, Tx, action_scope_conflict, action_state_changed,
  unexpected,
}
use ai_game.Constants.{CampaignStatus, WorkflowStep, status_eq}
use ai_game.Workflow.State.{can_transition}
use ai_game.Workflow.Tables.{WorkflowRun, Campaign, Db, find_campaign, find_workflow, save_pair}
use ai_game.Actions.Policy.{ActionExecutionGuard}

-- Whether the rows stand as the guard says.
unfoldable pub is_unchanged : ActionExecutionGuard → Campaign → WorkflowRun → Bool
is_unchanged guard campaign workflow =
    status_eq campaign.status guard.expected_campaign_status
    && ((campaign.version == guard.expected_campaign_version)
        && (status_eq workflow.status guard.expected_workflow_status
            && workflow.revision_number == guard.expected_revision_number))

-- `_locked_pair`
unfoldable pub locked_pair : ActionExecutionGuard → Db → Result (Campaign × WorkflowRun)
locked_pair guard db = do
  campaign ← required (find_campaign guard.campaign_id db) action_scope_conflict
  workflow ← required (find_workflow guard.workflow_id db) action_scope_conflict
  ensure (workflow.campaign_id == campaign.campaign_id) action_scope_conflict
  ensure (is_unchanged guard campaign workflow) action_state_changed
  ok (campaign, workflow)

-- `validate`: the record that it returns is the campaign.
unfoldable pub validate : ActionExecutionGuard → Tx Db Campaign
validate guard db = do (campaign, _) ← locked_pair guard db; ok (campaign, db)

-- `CampaignMetadataUpdate`
pub record CampaignMetadataUpdate : Type 0 where
  pub tone : Option Text
  pub target_audience : Option Text
  pub promotion : Option Text

-- The bounds of its fields.
abbrev fits : ℕ → Option Text → Bool
fits max_length none = true
fits max_length (some t) = leb 1 (length t) && leb (length t) max_length

-- Its validation, with `require_change`
unfoldable pub metadata_update :
    Option Text → Option Text → Option Text → Result CampaignMetadataUpdate
metadata_update tone target_audience promotion = do
  ensure (fits 500 tone && (fits 300 target_audience && fits 1000 promotion)) unexpected
  ensure (is_some tone || (is_some target_audience || is_some promotion)) unexpected
  ok (record { tone = tone; target_audience = target_audience; promotion = promotion })

-- `if value is not None`: the new value of a column.
abbrev pub given_or : Option Text → Text → Text
given_or none old = old
given_or (some new) old = new

-- `CampaignRepository.update_metadata`
abbrev pub with_metadata : CampaignMetadataUpdate → Campaign → Campaign
with_metadata payload campaign = record campaign {
  tone = given_or payload.tone campaign.tone;
  target_audience = given_or payload.target_audience campaign.target_audience;
  promotion = given_or payload.promotion campaign.promotion;
}

-- `update_metadata`
unfoldable pub update_metadata : CampaignMetadataUpdate → ActionExecutionGuard → Tx Db (Unit {0})
update_metadata payload guard db = do
  (campaign, _) ← locked_pair guard db
  let updated = record (with_metadata payload campaign) { version = campaign.version + 1 }
  ok (tt, record db { campaigns = put (λ (c : Campaign). c.campaign_id) updated db.campaigns })

-- `transition`
unfoldable pub guarded_transition :
    ActionExecutionGuard → CampaignStatus → WorkflowStep → Tx Db (Unit {0})
guarded_transition guard next_status step db = do
  (campaign, workflow) ← locked_pair guard db
  ensure (can_transition workflow.status next_status) action_state_changed
  let workflow' = record workflow { status = next_status; current_step = step }
  ok (tt, save_pair workflow' (record campaign { status = next_status }) db)
