-- ===== src/Workflow/Tables.antt =====
-- The rows that the campaign workflow reads and writes (app/database/models.py), and the queries of the
-- campaign, workflow, approval and outbox repositories. Identifiers are compared and nothing else, so they
-- are numbers. Times are numbers too. Columns that no modelled operation reads or writes (the other fields
-- of the brief, `lock_version`), `updated_at` and message texts are left out.
use ai_game.Base.{
  ℕ, String, Bool, false, ◌&&◌, Option, List, [], ◌∷◌, ◌++◌, ◌==◌, is_none, if◌then◌else◌, find,
  put, any, Text,
}
use ai_game.Constants.{
  CampaignStatus, received, validating, needs_clarification, analyzing, generating, reviewing,
  manual_review_required, pending_approval, revision_required, WorkflowStep, ApprovalDecision,
  UserRole, status_eq, status_in,
}
use ai_game.Errors.{Error}

-- A JSON document: the stored output of a specialist.
abbrev pub Document : Type 0
Document = String

-- `QualityReview.status`
pub data ReviewStatus : Type 0 where
  pass fail manual_review : ReviewStatus

-- `QualityReview`: the two fields that the workflow reads, and the rest of the document.
pub record QualityReview : Type 0 where
  pub status : ReviewStatus
  pub quality_score : ℕ
  pub details : Document

-- `WorkflowRunModel`
pub record WorkflowRun : Type 0 where
  pub workflow_id : ℕ
  pub campaign_id : ℕ
  pub parent_workflow_id : Option ℕ
  pub revision_number : ℕ
  pub status : CampaignStatus
  pub current_step : WorkflowStep
  pub llm_call_count : ℕ
  pub retry_count : ℕ
  pub quality_score : Option ℕ
  pub error_code : Option Error
  pub started_at : ℕ
  pub completed_at : Option ℕ
  pub evaluation_run_id : Option ℕ
  pub evaluation_case_id : Option ℕ

-- `CampaignModel`
pub record Campaign : Type 0 where
  pub campaign_id : ℕ
  pub target_audience : Text
  pub tone : Text
  pub promotion : Text
  pub status : CampaignStatus
  pub brief_analysis : Option Document
  pub generated_content : Option Document
  pub quality_review : Option QualityReview
  pub quality_score : Option ℕ
  pub retry_count : ℕ
  pub version : ℕ
  pub evaluation_run_id : Option ℕ
  pub evaluation_case_id : Option ℕ

-- `ApprovalRecordModel`
pub record ApprovalRecord : Type 0 where
  pub campaign_id : ℕ
  pub workflow_id : ℕ
  pub decision : ApprovalDecision
  pub feedback : Option String
  pub actor_id : ℕ
  pub actor_role : UserRole
  pub previous_version : ℕ
  pub resulting_version : ℕ
  pub decided_at : ℕ

-- The outbox events of the workflow. Their keys are the texts `workflow:<id>:terminal:<status>` and
-- `workflow:<id>:failed`, which are modelled by what they are built from.
pub data WorkflowEvent : Type 0 where
  workflow_completed : (workflow_id campaign_id : ℕ) → CampaignStatus → ℕ → WorkflowEvent
  workflow_failed : (workflow_id campaign_id : ℕ) → Error → WorkflowEvent

-- Whether two events have one idempotency key.
unfoldable pub same_key : WorkflowEvent → WorkflowEvent → Bool
same_key (workflow_completed i _ s _) (workflow_completed j _ t _) = i == j && status_eq s t
same_key (workflow_failed i _ _) (workflow_failed j _ _) = i == j
same_key _ _ = false

pub record Db : Type 0 where
  pub campaigns : List Campaign
  pub workflows : List WorkflowRun
  pub approvals : List ApprovalRecord
  pub events : List WorkflowEvent

-- `CampaignRepository.get_by_id`, `get_by_id_for_update`
abbrev pub find_campaign : ℕ → Db → Option Campaign
find_campaign campaign_id db = find (λ (c : Campaign). c.campaign_id) campaign_id db.campaigns

-- `WorkflowRepository.get_by_id`, `get_by_id_for_update`
abbrev pub find_workflow : ℕ → Db → Option WorkflowRun
find_workflow workflow_id db = find (λ (w : WorkflowRun). w.workflow_id) workflow_id db.workflows

-- The flush of a changed workflow and a changed campaign.
abbrev pub save_pair : WorkflowRun → Campaign → Db → Db
save_pair workflow campaign db = record db {
  workflows = put (λ (w : WorkflowRun). w.workflow_id) workflow db.workflows;
  campaigns = put (λ (c : Campaign). c.campaign_id) campaign db.campaigns;
}

-- `OutboxService.add_event`: an event whose key is there already is not inserted again.
unfoldable pub add_event : WorkflowEvent → Db → Db
unfolding same_key
add_event event db =
    if any (same_key event) db.events then db else record db { events = db.events ++ event ∷ [] }

-- `ACTIVE_WORKFLOW_STATUSES`
abbrev pub active_workflow_statuses : List CampaignStatus
active_workflow_statuses =
    received ∷ validating ∷ needs_clarification ∷ analyzing ∷ generating ∷ reviewing
    ∷ manual_review_required ∷ pending_approval ∷ revision_required ∷ []

-- The rows that `get_active_for_campaign` and the index `uq_workflow_runs_one_active_per_campaign` select.
unfoldable pub is_live : WorkflowRun → Bool
is_live w = is_none w.completed_at && status_in w.status active_workflow_statuses

-- `ApprovalRepository.has_final_decision`
unfoldable pub has_final_decision : ℕ → Db → Bool
has_final_decision workflow_id db =
    any (λ (a : ApprovalRecord). workflow_id == a.workflow_id) db.approvals
