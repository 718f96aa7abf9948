-- ===== src/Workflow/Tests.antt =====
-- The workflow on concrete tables.
use ai_game.Base.{codes, ℕ, ◌≡◌, ◌≢◌, refl, false, Option, none, some, [], ◌∷◌, ◌≤◌, arith}
use mathlib.Core.Option
use ai_game.Errors.{Result, ok, err, invalid_state_transition, workflow_creation_not_allowed}
use ai_game.Constants.{
  CampaignStatus, received, generating, pending_approval, manual_review_required, receive_campaign,
  generate_content, human_review, reviewer, request_revision, revision_required, complete, admin,
}
use ai_game.Workflow.State.{ensure_valid_transition}
use ai_game.Workflow.Tables.{
  fail, WorkflowRun, Campaign, ApprovalRecord, Db, find_workflow, add_event, has_final_decision,
}
use ai_game.Workflow.Checkpoints.{
  load_locked_pair, transition_checkpoint, save_analysis_checkpoint, save_content_checkpoint,
}
use ai_game.Workflow.Review.{review_transaction}
use ai_game.Workflow.Pairs.{IsPair}
use ai_game.Workflow.Run.{Environment, round, run_to_pending_approval}
use ai_game.Workflow.Service.{create_workflow}
use ai_game.Workflow.Approval.{ApprovalRequest, is_approver, record_decision, decide_transaction}
use ai_game.Workflow.Automaton.{is_decided}
use ai_game.Workflow.Progress.{KeepsProgress, LeavesProgress}
use ai_game.Workflow.Termination.{RunEnds}
use ai_game.Workflow.Outcome.{run_to_pending_approval-RunEnds, run_never_decides}
use ai_game.Workflow.Decisions.{IsDecision, decide-IsDecision}
use ai_game.Workflow.Stuck.{run_unanalyzed, decide_once}
use ai_game.Workflow.Rerun.{rerun_strands}

abbrev fresh : WorkflowRun
fresh = record {
  workflow_id = 1;
  campaign_id = 7;
  parent_workflow_id = none;
  revision_number = 0;
  status = received;
  current_step = receive_campaign;
  llm_call_count = 0;
  retry_count = 0;
  quality_score = none;
  error_code = none;
  started_at = 5;
  completed_at = none;
  evaluation_run_id = none;
  evaluation_case_id = none;
}

abbrev campaign : Campaign
campaign = record {
  campaign_id = 7;
  target_audience = codes "players of role games";
  tone = codes "bold";
  promotion = codes "a skin";
  status = received;
  brief_analysis = none;
  generated_content = none;
  quality_review = none;
  quality_score = none;
  retry_count = 0;
  version = 1;
  evaluation_run_id = none;
  evaluation_case_id = none;
}

abbrev tables : WorkflowRun → Campaign → Db
tables w c = record { campaigns = c ∷ []; workflows = w ∷ []; approvals = []; events = [] }

-- Specialists that change nothing, and a reviewer that is never content.
abbrev strict : Environment
strict = record {
  max_content_retries = 2;
  now = λ db. 100;
  run_brief_analysis = λ i j db. (ok "{\"analysis\": 1}", db);
  run_content_generation = λ i j db. (ok "{\"content\": 1}", db);
  run_content_review =
      λ i j db. (ok (record { status = fail; quality_score = 40; details = "{}" }), db);
  record_event = λ t w db. ok tt;
}

unchanged : (i : ℕ) (db : Db) → KeepsProgress i db db
unchanged i db = record {
  at = λ w c p. (
    w,
    c,
    p,
    record {
      status = refl;
      retry_count = refl;
      campaign_status = refl;
      brief_analysis = refl;
      generated_content = refl;
    },
  );
}

strict-LeavesProgress : LeavesProgress strict
strict-LeavesProgress = record {
  brief_analysis = λ i j db. unchanged j db;
  content_generation = λ i j db. unchanged j db;
  content_review = λ i j db. unchanged j db;
}

fresh-IsPair : IsPair 1 (tables fresh campaign) fresh campaign
fresh-IsPair = record {
  workflow_at = refl;
  campaign_at = refl;
  workflow_id_of = refl;
  campaign_id_of = refl;
}

-- Where a run leaves the workflow.
abbrev progress_of : Option (Result WorkflowRun × Db) → Option (CampaignStatus × ℕ)
progress_of none = none
progress_of (some (res, db)) =
    Option.map {B = CampaignStatus × ℕ} (λ (w : WorkflowRun). (w.status, w.retry_count))
      (find_workflow 1 db)

-- Two retries, and then a human is asked.
strict_run :
    progress_of (run_to_pending_approval 10 strict 1 (tables fresh campaign))
    ≡ some (manual_review_required, 2)
unfolding run_to_pending_approval round transition_checkpoint save_analysis_checkpoint
    save_content_checkpoint review_transaction load_locked_pair ensure_valid_transition add_event
strict_run = refl

run_to_pending_approval-RunEnds_example :
    (res : Result WorkflowRun) × (db' : Db) × (run_to_pending_approval 10 strict 1
        (tables fresh campaign)
      ≡ some (res, db'))
    × RunEnds 2 1 received 0 res db'
run_to_pending_approval-RunEnds_example =
    run_to_pending_approval-RunEnds strict strict-LeavesProgress 1 (tables fresh campaign) fresh
      campaign fresh-IsPair refl 10 (omega arith)

run_never_decides_example :
    (res : Result WorkflowRun) × (db' : Db) × (v : WorkflowRun) × (run_to_pending_approval 10 strict
        1
        (tables fresh campaign)
      ≡ some (res, db'))
    × (find_workflow 1 db' ≡ some v)
    × (is_decided v.status ≡ false)
    × (v.retry_count ≤ 2)
run_never_decides_example =
    run_never_decides strict strict-LeavesProgress 1 (tables fresh campaign) fresh campaign
      fresh-IsPair refl 10 (omega arith) refl (omega arith)

abbrev unanalyzed : WorkflowRun
unanalyzed = record fresh { status = generating; current_step = generate_content }

abbrev unanalyzed_campaign : Campaign
unanalyzed_campaign = record campaign { status = generating }

run_unanalyzed_example :
    run_to_pending_approval 3 strict 1 (tables unanalyzed unanalyzed_campaign)
    ≡ some (err invalid_state_transition, tables unanalyzed unanalyzed_campaign)
run_unanalyzed_example =
    run_unanalyzed 2 strict 1 (tables unanalyzed unanalyzed_campaign) unanalyzed unanalyzed_campaign
      (record {
        workflow_at = refl;
        campaign_at = refl;
        workflow_id_of = refl;
        campaign_id_of = refl;
      })
      refl refl

abbrev waiting : Db
waiting =
    tables (record fresh { status = pending_approval; current_step = human_review })
      (record campaign { status = pending_approval; brief_analysis = some "{}" })

abbrev request : ApprovalRequest
request = record {
  campaign_id = 7;
  workflow_id = 1;
  decision = request_revision;
  feedback = some "shorter";
  expected_version = 1;
}

abbrev decided : ApprovalRecord × Db
decided = (
  record {
    campaign_id = 7;
    workflow_id = 1;
    decision = request_revision;
    feedback = some "shorter";
    actor_id = 9;
    actor_role = reviewer;
    previous_version = 1;
    resulting_version = 2;
    decided_at = 200;
  },
  record {
    campaigns =
        record campaign { status = revision_required; brief_analysis = some "{}"; version = 2 }
        ∷ [];
    workflows =
        record fresh {
          status = revision_required;
          current_step = complete;
          completed_at = some 200;
        }
        ∷ [];
    approvals =
        record {
          campaign_id = 7;
          workflow_id = 1;
          decision = request_revision;
          feedback = some "shorter";
          actor_id = 9;
          actor_role = reviewer;
          previous_version = 1;
          resulting_version = 2;
          decided_at = 200;
        }
        ∷ [];
    events = [];
  },
)

decided_by : decide_transaction 200 request 9 reviewer waiting ≡ ok decided
unfolding decide_transaction is_approver has_final_decision record_decision ensure_valid_transition
decided_by = refl

decide-IsDecision_example : IsDecision 200 request 9 reviewer waiting decided.1
decide-IsDecision_example =
    decide-IsDecision 200 request 9 reviewer waiting decided.1 decided.0 decided_by

decide_once_example : decide_transaction 300 request 4 admin decided.1 ≢ ok (decided.0, decided.1)
decide_once_example =
    decide_once 200 request 9 reviewer waiting decided.1
      (decide-IsDecision 200 request 9 reviewer waiting decided.1 decided.0 decided_by) decided.1 []
      refl 300 request 4 admin refl decided.0 decided.1

rerun_strands_example :
    ((res : Result WorkflowRun) × (db2 : Db) × (v : WorkflowRun) × (run_to_pending_approval 11
          strict 1 decided.1
        ≡ some (res, db2))
      × (find_workflow 1 db2 ≡ some v)
      × (create_workflow 2 210 v.campaign_id db2 ≡ err workflow_creation_not_allowed))
    × (decide_transaction 300 request 4 admin decided.1 ≢ ok (decided.0, decided.1))
rerun_strands_example =
    rerun_strands 200 request 9 reviewer waiting decided.1
      (decide-IsDecision 200 request 9 reviewer waiting decided.1 decided.0 decided_by) refl strict
      strict-LeavesProgress 10 (omega arith) 2 210 decided.1 [] refl 300 request 4 admin refl
      decided.0 decided.1
