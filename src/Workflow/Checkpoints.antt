-- ===== src/Workflow/Checkpoints.antt =====
-- The checkpoints of app/workflows/campaign_workflow.py: one short transaction each, on a workflow and its
-- campaign, with no LLM call inside.
use ai_game.Base.{ℕ, some, ◌==◌}
use ai_game.Errors.{
  Result, ok, ensure, required, ◌>>=◌, ◌>>◌, Tx, campaign_not_found, workflow_not_found,
  version_conflict,
}
use ai_game.Constants.{
  CampaignStatus, analyzing, generating, reviewing, WorkflowStep, generate_content, review_content,
  status_eq,
}
use ai_game.Workflow.State.{ensure_valid_transition}
use ai_game.Workflow.Tables.{
  Document, WorkflowRun, Campaign, Db, find_campaign, find_workflow, save_pair,
}

-- `_load_locked_pair`
unfoldable pub load_locked_pair : ℕ → Db → Result (WorkflowRun × Campaign)
load_locked_pair workflow_id db = do
  hint ← required (find_workflow workflow_id db) workflow_not_found
  campaign ← required (find_campaign hint.campaign_id db) campaign_not_found
  workflow ← required (find_workflow workflow_id db) workflow_not_found
  ensure (workflow.campaign_id == campaign.campaign_id) workflow_not_found
  ok (workflow, campaign)

-- `_transition_locked`: the new status goes to both rows.
unfoldable pub transition_locked :
    WorkflowRun → Campaign → CampaignStatus → WorkflowStep → Result (WorkflowRun × Campaign)
transition_locked workflow campaign next_status next_step = do
  ensure_valid_transition workflow.status next_status
  ok (
    record workflow { status = next_status; current_step = next_step },
    record campaign { status = next_status },
  )

-- `_ensure_expected_status`
abbrev pub ensure_expected_status : CampaignStatus → CampaignStatus → Result (Unit {0})
ensure_expected_status actual expected = ensure (status_eq actual expected) version_conflict

-- `_transition_checkpoint`
unfoldable pub transition_checkpoint :
    ℕ → CampaignStatus → CampaignStatus → WorkflowStep → Tx Db WorkflowRun
unfolding transition_locked
transition_checkpoint workflow_id expected_status next_status next_step db = do
  (workflow, campaign) ← load_locked_pair workflow_id db
  ensure_expected_status workflow.status expected_status
  ensure_valid_transition expected_status next_status
  let workflow' = record workflow { status = next_status; current_step = next_step }
  ok (workflow', save_pair workflow' (record campaign { status = next_status }) db)

-- `_save_analysis_checkpoint`
unfoldable pub save_analysis_checkpoint : ℕ → Document → Tx Db (Unit {0})
unfolding transition_locked
save_analysis_checkpoint workflow_id analysis db = do
  (workflow, campaign) ← load_locked_pair workflow_id db
  ensure_expected_status workflow.status analyzing
  let analyzed = record campaign { brief_analysis = some analysis }
  (workflow', campaign') ← transition_locked workflow analyzed generating generate_content
  ok (tt, save_pair workflow' campaign' db)

-- `_save_content_checkpoint`
unfoldable pub save_content_checkpoint : ℕ → Document → Tx Db (Unit {0})
unfolding transition_locked
save_content_checkpoint workflow_id content db = do
  (workflow, campaign) ← load_locked_pair workflow_id db
  ensure_expected_status workflow.status generating
  let generated = record campaign { generated_content = some content }
  (workflow', campaign') ← transition_locked workflow generated reviewing review_content
  ok (tt, save_pair workflow' campaign' db)
