-- ===== src/Workflow/CreationTests.antt =====
-- The creation of a revision on concrete tables.
use ai_game.Base.{codes, ◌≡◌, refl, none, some, [], ◌∷◌}
use ai_game.Errors.{ok}
use ai_game.Constants.{revision_required, human_review, complete}
use ai_game.Workflow.Tables.{WorkflowRun, Campaign, Db, is_live}
use ai_game.Workflow.Service.{
  has_active_for_campaign, comes_before, is_revision_parent, latest_parent,
  latest_revision_parent_for_campaign, new_workflow, insert_workflow, prepare_workflow,
  create_workflow,
}
use ai_game.Workflow.Creation.{IsCreation, create_workflow-IsCreation}

abbrev closed : WorkflowRun
closed = record {
  workflow_id = 1;
  campaign_id = 7;
  parent_workflow_id = none;
  revision_number = 0;
  status = revision_required;
  current_step = complete;
  llm_call_count = 4;
  retry_count = 1;
  quality_score = some 81;
  error_code = none;
  started_at = 5;
  completed_at = some 200;
  evaluation_run_id = none;
  evaluation_case_id = none;
}

abbrev returned : Campaign
returned = record {
  campaign_id = 7;
  target_audience = codes "players of role games";
  tone = codes "bold";
  promotion = codes "a skin";
  status = revision_required;
  brief_analysis = some "{}";
  generated_content = some "{}";
  quality_review = none;
  quality_score = some 81;
  retry_count = 1;
  version = 2;
  evaluation_run_id = none;
  evaluation_case_id = none;
}

abbrev before : Db
before = record { campaigns = returned ∷ []; workflows = closed ∷ []; approvals = []; events = [] }

abbrev revision : WorkflowRun
revision = record closed {
  workflow_id = 2;
  parent_workflow_id = some 1;
  revision_number = 1;
  current_step = human_review;
  llm_call_count = 0;
  retry_count = 0;
  quality_score = none;
  started_at = 300;
  completed_at = none;
}

abbrev afterwards : Db
afterwards = record before { workflows = closed ∷ revision ∷ [] }

created : create_workflow 2 300 7 before ≡ ok (revision, afterwards)
unfolding create_workflow has_active_for_campaign is_live prepare_workflow new_workflow
    insert_workflow latest_revision_parent_for_campaign latest_parent comes_before
    is_revision_parent
created = refl

create_workflow-IsCreation_example : IsCreation 2 7 before afterwards revision
create_workflow-IsCreation_example =
    create_workflow-IsCreation 2 300 7 before afterwards revision created
