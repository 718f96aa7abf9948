-- ===== src/Workflow/Run.antt =====
-- `CampaignWorkflow.run_to_pending_approval` (app/workflows/campaign_workflow.py): the loop that drives a
-- workflow from checkpoint to checkpoint. The specialists that it calls (app/agentic/runtime) and the memory
-- service stand behind an interface; their calls lie between transactions and may change the tables. The
-- loop takes fuel, and Workflow/Termination says how much is enough.
use ai_game.Base.{ℕ, zero, suc, Option, none, some, ltb, if◌then◌else◌}
use mathlib.Core.Option
use ai_game.Errors.{
  Result, ok, err, required, ◌>>=◌, ◌>>◌, transact, campaign_not_found, workflow_not_found,
  workflow_execution,
}
use ai_game.Constants.{
  CampaignStatus, received, validating, needs_clarification, analyzing, generating, reviewing,
  manual_review_required, pending_approval, revision_required, approved, rejected, validate_input,
  analyze_brief, generate_content, MemoryEventType, workflow_retry, review_feedback,
  revision_completed,
}
use ai_game.Workflow.Tables.{Document, QualityReview, WorkflowRun, Db, find_campaign, find_workflow}
use ai_game.Workflow.Checkpoints.{
  transition_checkpoint, save_analysis_checkpoint, save_content_checkpoint,
}
use ai_game.Workflow.Review.{
  ReviewBranch, to_approval, to_manual_review, regenerate, review_transaction, persist_failure,
}
use ai_game.Workflow.Failures.{is_conflict_error, is_execution_failure}

-- What the loop is given: the settings, the clock, the three specialists (`AgenticOrchestrator`) and
-- `MemoryService.record_event`, which writes only to a table of its own and may raise. A specialist takes
-- the campaign's and the workflow's id.
pub record Environment : Type 0 where
  pub max_content_retries : ℕ
  pub now : Db → ℕ
  pub run_brief_analysis : ℕ → ℕ → Db → Result Document × Db
  pub run_content_generation : ℕ → ℕ → Db → Result Document × Db
  pub run_content_review : ℕ → ℕ → Db → Result QualityReview × Db
  pub record_event : MemoryEventType → WorkflowRun → Db → Result (Unit {0})

-- `WorkflowSnapshot`
pub record WorkflowSnapshot : Type 0 where
  pub workflow : WorkflowRun
  pub brief_analysis : Option Document
  pub generated_content : Option Document

-- `_load_snapshot`
unfoldable pub load_snapshot : ℕ → Db → Result WorkflowSnapshot
load_snapshot workflow_id db = do
  workflow ← required (find_workflow workflow_id db) workflow_not_found
  campaign ← required (find_campaign workflow.campaign_id db) campaign_not_found
  ok (record {
    workflow = workflow;
    brief_analysis = campaign.brief_analysis;
    generated_content = campaign.generated_content;
  })

-- What one round of the loop comes to, if it raises nothing.
pub data Progress : Type 0 where
  finished : WorkflowRun → Progress
  again : Progress

-- `continue` after a step that may raise.
abbrev pub and_again : {A : Type 0} → Result A × Db → Result Progress × Db
and_again (ok _, db) = (ok again, db)
and_again (err e, db) = (err e, db)

-- The output of a specialist, saved by a checkpoint.
abbrev pub and_save :
    {A : Type 0} → Result A × Db → (A → Db → Result (Unit {0}) × Db) → Result Progress × Db
and_save (ok a, db) save = and_again (save a db)
and_save (err e, db) save = (err e, db)

-- `if revision_completed`
unfoldable pub record_revision : Environment → WorkflowRun → Db → Result (Unit {0})
record_revision env workflow db =
    if ltb 0 workflow.revision_number
    then env.record_event revision_completed workflow db
    else ok tt

-- The memory entries after a review, in their order.
unfoldable pub record_review : Environment → ReviewBranch → WorkflowRun → Db → Result (Unit {0})
unfolding record_revision
record_review env regenerate workflow db = do
  env.record_event review_feedback workflow db
  env.record_event workflow_retry workflow db
record_review env to_manual_review workflow db = env.record_event review_feedback workflow db
record_review env to_approval workflow db = do
  env.record_event review_feedback workflow db
  record_revision env workflow db

-- What stands after the transaction of a review.
abbrev pub after_review :
    Environment → Result (ReviewBranch × WorkflowRun) × Db → Result (Unit {0}) × Db
after_review env (ok (branch, workflow), db) = (record_review env branch workflow db, db)
after_review env (err e, db) = (err e, db)

-- `_save_review_decision_checkpoint`: the memory is written after the commit.
unfoldable pub save_review_decision_checkpoint :
    Environment → ℕ → QualityReview → Db → Result (Unit {0}) × Db
unfolding record_review
save_review_decision_checkpoint env workflow_id review db =
    after_review env (transact (review_transaction env.max_content_retries workflow_id review) db)

-- The two branches that look for a document before they call a specialist.
unfoldable pub resume_generating :
    Environment → WorkflowSnapshot → ℕ → Db → Option Document → Result Progress × Db
resume_generating env snapshot workflow_id db none =
    and_again (transact (transition_checkpoint workflow_id generating analyzing analyze_brief) db)
resume_generating env snapshot workflow_id db (some analysis) =
    and_save (env.run_content_generation snapshot.workflow.campaign_id workflow_id db)
      (λ content. transact (save_content_checkpoint workflow_id content))

unfoldable pub resume_reviewing :
    Environment → WorkflowSnapshot → ℕ → Db → Option Document → Result Progress × Db
unfolding save_review_decision_checkpoint
resume_reviewing env snapshot workflow_id db none =
    and_again
      (transact (transition_checkpoint workflow_id reviewing generating generate_content) db)
resume_reviewing env snapshot workflow_id db (some content) =
    and_save (env.run_content_review snapshot.workflow.campaign_id workflow_id db)
      (save_review_decision_checkpoint env workflow_id)

-- The body of `while True`, by the status of the snapshot.
unfoldable pub resume :
    Environment → WorkflowSnapshot → ℕ → Db → CampaignStatus → Result Progress × Db
unfolding resume_generating resume_reviewing
resume env snapshot workflow_id db received =
    and_again (transact (transition_checkpoint workflow_id received validating validate_input) db)
resume env snapshot workflow_id db validating =
    and_again (transact (transition_checkpoint workflow_id validating analyzing analyze_brief) db)
resume env snapshot workflow_id db revision_required =
    and_again (
      transact (transition_checkpoint workflow_id revision_required generating generate_content) db)
resume env snapshot workflow_id db analyzing =
    and_save (env.run_brief_analysis snapshot.workflow.campaign_id workflow_id db)
      (λ analysis. transact (save_analysis_checkpoint workflow_id analysis))
resume env snapshot workflow_id db generating =
    resume_generating env snapshot workflow_id db snapshot.brief_analysis
resume env snapshot workflow_id db reviewing =
    resume_reviewing env snapshot workflow_id db snapshot.generated_content
resume env snapshot workflow_id db pending_approval = (ok (finished snapshot.workflow), db)
resume env snapshot workflow_id db manual_review_required = (ok (finished snapshot.workflow), db)
resume env snapshot workflow_id db approved = (ok (finished snapshot.workflow), db)
resume env snapshot workflow_id db rejected = (ok (finished snapshot.workflow), db)
resume env snapshot workflow_id db CampaignStatus.failed = (ok (finished snapshot.workflow), db)
resume env snapshot workflow_id db needs_clarification = (ok (finished snapshot.workflow), db)

abbrev pub resume_loaded : Environment → ℕ → Db → Result WorkflowSnapshot → Result Progress × Db
resume_loaded env workflow_id db (ok snapshot) =
    resume env snapshot workflow_id db snapshot.workflow.status
resume_loaded env workflow_id db (err e) = (err e, db)

-- One round of the loop.
unfoldable pub round : Environment → ℕ → Db → Result Progress × Db
unfolding load_snapshot resume
round env workflow_id db = resume_loaded env workflow_id db (load_snapshot workflow_id db)

abbrev pub after_round :
    (Db → Option (Result WorkflowRun × Db))
    → Result Progress × Db
    → Option (Result WorkflowRun × Db)
after_round next (ok again, db) = next db
after_round next (ok (finished workflow), db) = some (ok workflow, db)
after_round next (err e, db) = some (err e, db)

-- `while True`; `none` means that the fuel ran out.
unfoldable pub run_loop : ℕ → Environment → ℕ → Db → Option (Result WorkflowRun × Db)
run_loop zero env workflow_id db = none
run_loop (suc fuel) env workflow_id db =
    after_round (run_loop fuel env workflow_id) (round env workflow_id db)

-- The `except` clauses of `_run_to_pending_approval`.
unfoldable pub handle_exception :
    Environment → ℕ → Result WorkflowRun × Db → Result WorkflowRun × Db
handle_exception env workflow_id (ok workflow, db) = (ok workflow, db)
handle_exception env workflow_id (err e, db) =
    if is_conflict_error e
    then (err e, db)
    else if is_execution_failure e
    then (err e, persist_failure workflow_id e (env.now db) db)
    else (err workflow_execution, persist_failure workflow_id workflow_execution (env.now db) db)

unfoldable pub run_to_pending_approval : ℕ → Environment → ℕ → Db → Option (Result WorkflowRun × Db)
unfolding run_loop handle_exception
run_to_pending_approval fuel env workflow_id db =
    Option.map (handle_exception env workflow_id) (run_loop fuel env workflow_id db)
