-- ===== src/Workflow/Approval.antt =====
-- app/service/approval_service.py: the human decision on a workflow that waits for it.
use ai_game.Base.{ℕ, ◌+◌, String, Bool, true, false, Option, some, [], ◌∷◌, ◌++◌, not, ◌==◌}
use ai_game.Errors.{
  Result, ok, err, ensure, required, ◌>>=◌, ◌>>◌, Tx, transact, campaign_not_found,
  workflow_not_found, approval_not_allowed, approval_already_decided, version_conflict,
}
use ai_game.Constants.{
  UserRole, reviewer, manager, admin, CampaignStatus, pending_approval, revision_required, approved,
  rejected, ApprovalDecision, approve, reject, request_revision, complete, status_eq,
}
use ai_game.Workflow.State.{ensure_valid_transition}
use ai_game.Workflow.Tables.{
  WorkflowRun, Campaign, ApprovalRecord, Db, find_campaign, find_workflow, save_pair,
  has_final_decision,
}

-- `ApprovalRequest`
pub record ApprovalRequest : Type 0 where
  pub campaign_id : ℕ
  pub workflow_id : ℕ
  pub decision : ApprovalDecision
  pub feedback : Option String
  pub expected_version : ℕ

-- `APPROVER_ROLES`
unfoldable pub is_approver : UserRole → Bool
is_approver reviewer = true
is_approver manager = true
is_approver admin = true
is_approver _ = false

-- The status that a decision leads to.
abbrev pub decided_status : ApprovalDecision → CampaignStatus
decided_status approve = approved
decided_status reject = rejected
decided_status request_revision = revision_required

-- A request for revision raises the campaign's version.
abbrev pub resulting_version : ApprovalDecision → ℕ → ℕ
resulting_version request_revision previous_version = previous_version + 1
resulting_version _ previous_version = previous_version

-- `WorkflowRepository.mark_completed`
abbrev pub mark_completed : ℕ → WorkflowRun → WorkflowRun
mark_completed now workflow = record workflow { current_step = complete; completed_at = some now }

-- The row of `ApprovalRepository.create`.
unfoldable pub approval_record : ℕ → ApprovalRequest → ℕ → UserRole → ℕ → ApprovalRecord
approval_record now request actor_id actor_role previous_version = record {
  campaign_id = request.campaign_id;
  workflow_id = request.workflow_id;
  decision = request.decision;
  feedback = request.feedback;
  actor_id = actor_id;
  actor_role = actor_role;
  previous_version = previous_version;
  resulting_version = resulting_version request.decision previous_version;
  decided_at = now;
}

-- The writes of `decide`, after its checks. `uq_approval_records_workflow_id` cannot refuse the record:
-- the check for an earlier decision has passed, under the campaign's lock.
unfoldable pub record_decision :
    ℕ → ApprovalRequest → ℕ → UserRole → WorkflowRun → Campaign → Tx Db ApprovalRecord
unfolding approval_record
record_decision now request actor_id actor_role workflow campaign db = do
  let next_status = decided_status request.decision
  ensure_valid_transition workflow.status next_status
  let workflow' = mark_completed now (record workflow { status = next_status })
  let campaign' = record campaign {
    status = next_status;
    version = resulting_version request.decision campaign.version;
  }
  let approval = approval_record now request actor_id actor_role campaign.version
  let saved = save_pair workflow' campaign' db
  ok (approval, record saved { approvals = saved.approvals ++ approval ∷ [] })

-- The transaction of `decide`.
unfoldable pub decide_transaction : ℕ → ApprovalRequest → ℕ → UserRole → Tx Db ApprovalRecord
decide_transaction now request actor_id actor_role db = do
  ensure (is_approver actor_role) approval_not_allowed
  campaign ← required (find_campaign request.campaign_id db) campaign_not_found
  workflow ← required (find_workflow request.workflow_id db) workflow_not_found
  ensure (workflow.campaign_id == request.campaign_id) workflow_not_found
  ensure (not (has_final_decision request.workflow_id db)) approval_already_decided
  ensure (status_eq workflow.status pending_approval) approval_not_allowed
  ensure (campaign.version == request.expected_version) version_conflict
  record_decision now request actor_id actor_role workflow campaign db

abbrev pub after_decision :
    (ApprovalRecord → Db → Result (Unit {0}))
    → Result ApprovalRecord × Db
    → Result ApprovalRecord × Db
after_decision record_event (ok approval, db) = ((record_event approval db >> ok approval), db)
after_decision record_event (err e, db) = (err e, db)

-- `decide`: the memory entry is written after the commit, and may raise.
unfoldable pub decide :
    (ApprovalRecord → Db → Result (Unit {0}))
    → ℕ
    → ApprovalRequest
    → ℕ
    → UserRole
    → Db
    → Result ApprovalRecord × Db
unfolding decide_transaction
decide record_event now request actor_id actor_role db =
    after_decision record_event (transact (decide_transaction now request actor_id actor_role) db)
