-- ===== src/Workflow/Service.antt =====
-- app/service/workflow_service.py: the creation of a workflow, a single transition, and the budget of LLM
-- calls. A new row's id (`uuid4`) and the time of its creation are arguments.
use ai_game.Base.{
  ℕ, ◌+◌, Bool, Option, none, some, List, [], ◌∷◌, ◌++◌, ◌&&◌, ◌||◌, not, ◌==◌, ltb, leb, is_some,
  is_none, any, if◌then◌else◌,
}
use ai_game.Errors.{
  Result, ok, ensure, required, ◌>>=◌, ◌>>◌, Tx, campaign_not_found, workflow_creation_not_allowed,
  workflow_already_active, workflow_limit, persistence,
}
use ai_game.Constants.{
  CampaignStatus, received, revision_required, WorkflowStep, receive_campaign, human_review,
  status_eq, status_in,
}
use ai_game.Workflow.State.{ensure_valid_transition}
use ai_game.Workflow.Tables.{
  WorkflowRun, Campaign, Db, find_campaign, find_workflow, save_pair, is_live,
}
use ai_game.Workflow.Checkpoints.{load_locked_pair}

-- `WORKFLOW_CREATABLE_CAMPAIGN_STATUSES`
abbrev workflow_creatable_campaign_statuses : List CampaignStatus
workflow_creatable_campaign_statuses = received ∷ revision_required ∷ []

abbrev pub is_live_for : ℕ → WorkflowRun → Bool
is_live_for campaign_id w = campaign_id == w.campaign_id && is_live w

-- `WorkflowRepository.get_active_for_campaign`, of which the service asks only whether it finds a row
unfoldable pub has_active_for_campaign : ℕ → Db → Bool
has_active_for_campaign campaign_id db = any (is_live_for campaign_id) db.workflows

-- The `ORDER BY revision_number DESC, completed_at DESC` of two rows with a completion time.
abbrev completed_time : WorkflowRun → ℕ
completed_time w = elim w.completed_at [ none ↦ 0 | some t ↦ t ]

unfoldable pub comes_before : WorkflowRun → WorkflowRun → Bool
comes_before v w =
    ltb w.revision_number v.revision_number
    || v.revision_number == w.revision_number && ltb (completed_time w) (completed_time v)

unfoldable pub is_revision_parent : ℕ → WorkflowRun → Bool
is_revision_parent campaign_id w =
    w.campaign_id == campaign_id && status_eq w.status revision_required && is_some w.completed_at

abbrev better : WorkflowRun → Option WorkflowRun → Option WorkflowRun
better v none = some v
better v (some w) = if comes_before w v then some w else some v

unfoldable pub latest_parent : ℕ → List WorkflowRun → Option WorkflowRun
unfolding comes_before is_revision_parent
latest_parent campaign_id [] = none
latest_parent campaign_id (w ∷ rest) =
    let best = latest_parent campaign_id rest in
    if is_revision_parent campaign_id w then better w best else best

-- `WorkflowRepository.latest_revision_parent_for_campaign`
unfoldable pub latest_revision_parent_for_campaign : ℕ → Db → Option WorkflowRun
unfolding latest_parent
latest_revision_parent_for_campaign campaign_id db = latest_parent campaign_id db.workflows

-- The row of `WorkflowRepository.create`; the arguments that have a default in the source come last.
unfoldable pub new_workflow :
    ℕ → ℕ → Campaign → CampaignStatus → WorkflowStep → Option ℕ → ℕ → WorkflowRun
new_workflow workflow_id now campaign status current_step parent_workflow_id revision_number =
    record {
      workflow_id = workflow_id;
      campaign_id = campaign.campaign_id;
      parent_workflow_id = parent_workflow_id;
      revision_number = revision_number;
      status = status;
      current_step = current_step;
      llm_call_count = 0;
      retry_count = 0;
      quality_score = none;
      error_code = none;
      started_at = now;
      completed_at = none;
      evaluation_run_id = campaign.evaluation_run_id;
      evaluation_case_id = campaign.evaluation_case_id;
    }

-- The insertion, under the primary key and `uq_workflow_runs_one_active_per_campaign`.
unfoldable pub insert_workflow : WorkflowRun → Db → Result (WorkflowRun × Db)
unfolding has_active_for_campaign
insert_workflow workflow db = do
  ensure (is_none (find_workflow workflow.workflow_id db)) persistence
  ensure (not (is_live workflow && has_active_for_campaign workflow.campaign_id db))
      workflow_already_active
  ok (workflow, record db { workflows = db.workflows ++ workflow ∷ [] })

-- The two ways to fill the row of a new workflow.
unfoldable pub prepare_workflow : ℕ → ℕ → Campaign → Db → Result WorkflowRun
unfolding new_workflow latest_revision_parent_for_campaign
prepare_workflow workflow_id now campaign db =
    if status_eq campaign.status revision_required
    then (do
      parent ←
          required (latest_revision_parent_for_campaign campaign.campaign_id db)
            workflow_creation_not_allowed
      ok (
          new_workflow workflow_id now campaign revision_required human_review
            (some parent.workflow_id) (parent.revision_number + 1)))
    else ok (new_workflow workflow_id now campaign received receive_campaign none 0)

-- `create_workflow`
unfoldable pub create_workflow : ℕ → ℕ → ℕ → Tx Db WorkflowRun
unfolding prepare_workflow insert_workflow has_active_for_campaign
create_workflow workflow_id now campaign_id db = do
  campaign ← required (find_campaign campaign_id db) campaign_not_found
  ensure (status_in campaign.status workflow_creatable_campaign_statuses)
      workflow_creation_not_allowed
  ensure (not (has_active_for_campaign campaign_id db)) workflow_already_active
  workflow ← prepare_workflow workflow_id now campaign db
  insert_workflow workflow db

-- `if step is not None`
abbrev with_step : Option WorkflowStep → WorkflowRun → WorkflowRun
with_step none w = w
with_step (some step) w = record w { current_step = step }

-- `transition`
unfoldable pub transition : ℕ → CampaignStatus → Option WorkflowStep → Tx Db WorkflowRun
transition workflow_id next_status step db = do
  (workflow, campaign) ← load_locked_pair workflow_id db
  ensure_valid_transition workflow.status next_status
  let moved = with_step step (record workflow { status = next_status })
  ok (moved, save_pair moved (record campaign { status = next_status }) db)

-- `record_llm_call`: the campaign is locked and not changed.
unfoldable pub record_llm_call : ℕ → ℕ → Tx Db (Unit {0})
record_llm_call max_llm_calls_per_workflow workflow_id db = do
  (workflow, campaign) ← load_locked_pair workflow_id db
  ensure (not (leb max_llm_calls_per_workflow workflow.llm_call_count)) workflow_limit
  let counted = record workflow { llm_call_count = workflow.llm_call_count + 1 }
  ok (tt, save_pair counted campaign db)
