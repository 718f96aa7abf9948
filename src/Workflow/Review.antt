-- ===== src/Workflow/Review.antt =====
-- The last two checkpoints of app/workflows/campaign_workflow.py: the decision on a quality review, and the
-- record of a failed run.
use ai_game.Base.{ℕ, ◌+◌, some, leb, if◌then◌else◌, List, [], ◌∷◌}
use ai_game.Errors.{Error, Result, ok, ◌>>=◌, ◌>>◌, Tx}
use ai_game.Constants.{
  CampaignStatus, generating, reviewing, manual_review_required, pending_approval, approved,
  rejected, generate_content, human_review, complete, status_in,
}
use ai_game.Workflow.State.{can_transition}
use ai_game.Workflow.Tables.{
  QualityReview, ReviewStatus, pass, fail, manual_review, WorkflowRun, Campaign, Db, save_pair,
  add_event, workflow_completed, workflow_failed,
}
use ai_game.Workflow.Checkpoints.{load_locked_pair, transition_locked, ensure_expected_status}

-- The three ways on from a review.
pub data ReviewBranch : Type 0 where
  to_approval to_manual_review regenerate : ReviewBranch

-- The `if`/`elif` chain of `_save_review_decision_checkpoint`.
unfoldable pub review_branch : ℕ → ReviewStatus → ℕ → ReviewBranch
review_branch max_content_retries pass retry_count = to_approval
review_branch max_content_retries manual_review retry_count = to_manual_review
review_branch max_content_retries fail retry_count =
    if leb max_content_retries retry_count then to_manual_review else regenerate

-- The body of each branch.
unfoldable pub apply_review :
    ReviewBranch → WorkflowRun → Campaign → Result (WorkflowRun × Campaign)
unfolding transition_locked
apply_review to_approval workflow campaign =
    transition_locked workflow campaign pending_approval human_review
apply_review to_manual_review workflow campaign =
    transition_locked workflow campaign manual_review_required human_review
apply_review regenerate workflow campaign =
    transition_locked (record workflow { retry_count = workflow.retry_count + 1 })
      (record campaign { retry_count = campaign.retry_count + 1 }) generating generate_content

-- A branch other than the retry leaves a `WORKFLOW_COMPLETED` event in the same transaction.
unfoldable pub staged_completion : ReviewBranch → WorkflowRun → ℕ → Db → Db
staged_completion regenerate workflow score db = db
staged_completion to_approval workflow score db =
    add_event (workflow_completed workflow.workflow_id workflow.campaign_id workflow.status score)
      db
staged_completion to_manual_review workflow score db =
    add_event (workflow_completed workflow.workflow_id workflow.campaign_id workflow.status score)
      db

-- The transaction of `_save_review_decision_checkpoint`: which branch was taken, and the workflow after it.
unfoldable pub review_transaction : ℕ → ℕ → QualityReview → Tx Db (ReviewBranch × WorkflowRun)
unfolding review_branch apply_review staged_completion
review_transaction max_content_retries workflow_id review db = do
  (workflow, campaign) ← load_locked_pair workflow_id db
  ensure_expected_status workflow.status reviewing
  let score = review.quality_score
  let reviewed = record campaign { quality_review = some review; quality_score = some score }
  let scored = record workflow { quality_score = some score }
  let branch = review_branch max_content_retries review.status workflow.retry_count
  (workflow', campaign') ← apply_review branch scored reviewed
  ok (
    (branch, workflow'),
    staged_completion branch workflow' score (save_pair workflow' campaign' db),
  )

-- The statuses that `_persist_failure` leaves alone.
abbrev settled_statuses : List CampaignStatus
settled_statuses =
    approved ∷ rejected ∷ CampaignStatus.failed ∷ pending_approval ∷ manual_review_required ∷ []

-- `WorkflowRepository.mark_failed`
unfoldable pub mark_failed : Error → ℕ → WorkflowRun → WorkflowRun
mark_failed error now workflow = record workflow {
  status = CampaignStatus.failed;
  current_step = complete;
  error_code = some error;
  completed_at = some now;
}

-- What `_persist_failure` writes on the locked pair.
unfoldable pub record_failure : Error → ℕ → WorkflowRun → Campaign → Db → Db
unfolding can_transition mark_failed
record_failure error now workflow campaign db =
    if status_in workflow.status settled_statuses
    then db
    else if can_transition workflow.status CampaignStatus.failed
    then add_event (workflow_failed workflow.workflow_id campaign.campaign_id error) (
        save_pair (mark_failed error now workflow)
          (record campaign { status = CampaignStatus.failed }) db)
    else db

-- `_persist_failure`: an exception inside it is logged, and changes nothing.
unfoldable pub persist_failure : ℕ → Error → ℕ → Db → Db
unfolding record_failure
persist_failure workflow_id error now db = elim (load_locked_pair workflow_id db) [
  | Result.ok (workflow, campaign) ↦ record_failure error now workflow campaign db
  | Result.err _ ↦ db
]
