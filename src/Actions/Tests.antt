-- ===== src/Actions/Tests.antt =====
-- The actions on concrete tables: a reviewing campaign, whose reviewer proposed to mark it for manual review.
use ai_game.Base.{◌≡◌, ◌↔◌, refl, true, false, Option, none, some, List, [], ◌∷◌, All, arith, codes}
use ai_game.Errors.{ok, transact}
use ai_game.Constants.{
  reviewer, manager, reviewing, manual_review_required, human_review, review_content,
  content_reviewer, approval_required, ActionRequestStatus,
}
use ai_game.Auth.Roles.{
  AuthenticatedActor, require_action_approval, role_satisfies_requirement, role_text,
}
use ai_game.Workflow.Tables.{WorkflowRun, Campaign, Db}
use ai_game.Actions.Rules.{
  dict, text, Fields, end, field, contains_nested_danger, is_forbidden_alias, forbidden_actions,
  generic_actions, dangerous_argument_keys,
}
use ai_game.Actions.Dangers.{Dangerous, contains_nested_danger_iff}
use ai_game.Actions.Policy.{
  human_approval_required, PolicyContext, PolicyResult, ActionExecutionGuard, ActionInput,
  ActionDefinition, find_definition, evaluate, evaluate_registered, is_allowed_agent,
  evaluate_input, is_in_scope, allows_status, default_result,
}
use ai_game.Actions.Permission.{Permits, evaluate_iff}
use ai_game.Actions.Campaign.{InputModels, default_definitions}
use ai_game.Actions.Guard.{guarded_transition}
use ai_game.Actions.Acts.{Acts, default_definitions-Acts}
use ai_game.Actions.Tables.{
  ActionRequest, Store, find_request, save_request, stage_action_event, same_event_key,
}
use ai_game.Actions.Life.{Lives, Sound}
use ai_game.Actions.Histories.{
  Call, reserves, completes, perform, history, history-Sound, history-Lives,
}
use ai_game.Actions.Requests.{
  create_proposal, approved_request, mark_request_completed, save_latest_policy_result,
  mark_executing, approve_request,
}
use ai_game.Actions.Executions.{
  new_execution, mark_running, mark_execution_completed, has_execution_key, insert_execution,
}
use ai_game.Actions.Reserve.{
  Scope, execution_context, execution_guard, has_lapsed, Reservation, reserve, load_scope,
  reevaluate, expiry, pass_gate, reserve_execution, approval_gate, decision_gate,
}
use ai_game.Actions.Clearance.{Allowed, IsReserved, reserve-Allowed}
use ai_game.Actions.Finish.{runs, commit_success, required_pair}
use ai_game.Actions.Service.{Circumstances, approve, decidable_request}
use ai_game.Actions.Approvals.{Decidable, approve-Decidable}

abbrev arguments : Fields
arguments = field (codes "reason") (text (codes "the tone is off")) end

contains_nested_danger_iff_example :
    (contains_nested_danger (dict arguments) ≡ true) ↔ Dangerous (dict arguments)
contains_nested_danger_iff_example = contains_nested_danger_iff (dict arguments)

-- Models that accept every input, in the scope of the workflow.
abbrev accept : Fields → Option ActionInput
accept fields = some (record {
  campaign_id = some 7;
  workflow_id = some 1;
  revision_number = some 0;
  text_length = 15;
  tone = some (codes "calm");
  target_audience = none;
  promotion = none;
})

abbrev models : InputModels
models = record {
  internal_recommendation = accept;
  campaign_summary = accept;
  revision_draft = accept;
  update_campaign_metadata = accept;
  regeneration = accept;
  manual_review_note = accept;
  mark_manual_review = accept;
}

abbrev registry : List ActionDefinition
registry = default_definitions 3600 models

abbrev workflow : WorkflowRun
workflow = record {
  workflow_id = 1;
  campaign_id = 7;
  parent_workflow_id = none;
  revision_number = 0;
  status = reviewing;
  current_step = review_content;
  llm_call_count = 2;
  retry_count = 0;
  quality_score = none;
  error_code = none;
  started_at = 5;
  completed_at = none;
  evaluation_run_id = none;
  evaluation_case_id = none;
}

abbrev campaign : Campaign
campaign = record {
  campaign_id = 7;
  target_audience = codes "players of role games";
  tone = codes "bold";
  promotion = codes "a skin";
  status = reviewing;
  brief_analysis = none;
  generated_content = none;
  quality_review = none;
  quality_score = none;
  retry_count = 0;
  version = 1;
  evaluation_run_id = none;
  evaluation_case_id = none;
}

abbrev rows : Db
rows = record { campaigns = campaign ∷ []; workflows = workflow ∷ []; approvals = []; events = [] }

abbrev guard : ActionExecutionGuard
guard = record {
  campaign_id = 7;
  workflow_id = 1;
  expected_campaign_status = reviewing;
  expected_campaign_version = 1;
  expected_workflow_status = reviewing;
  expected_revision_number = 0;
}

abbrev input : ActionInput
input = record {
  campaign_id = some 7;
  workflow_id = some 1;
  revision_number = some 0;
  text_length = 15;
  tone = some (codes "calm");
  target_audience = none;
  promotion = none;
}

default_definitions-Acts_example :
    All
      (λ (d : ActionDefinition). Acts guard input rows (d.handler input guard rows))
      (default_definitions 3600 models)
default_definitions-Acts_example = default_definitions-Acts 3600 models input guard rows

abbrev context : PolicyContext
context = record {
  agent_name = content_reviewer;
  action_name = codes "mark_for_manual_review";
  arguments = arguments;
  campaign_id = 7;
  workflow_id = 1;
  revision_number = 0;
  campaign_status = reviewing;
  workflow_status = reviewing;
}

evaluate_iff_example :
    ((evaluate context (find_definition context.action_name registry)).decision ≡ approval_required)
    ↔ Permits context (find_definition context.action_name registry) approval_required
evaluate_iff_example =
    evaluate_iff context approval_required (ground arith)
      (find_definition context.action_name registry)

abbrev policy : PolicyResult
policy = record {
  decision = approval_required;
  reason_code = human_approval_required;
  required_role = some reviewer;
  expires_in_seconds = some 3600;
  reversible = true;
}

-- The proposal waits for approval until 3610.
abbrev pending : ActionRequest
pending =
    create_proposal 10 4 3 99 policy context ActionRequestStatus.pending_approval (some 3610) none

abbrev store : ActionRequest → Store
store request = record { rows = rows; requests = request ∷ []; executions = []; events = [] }

abbrev ana : AuthenticatedActor
ana = record { actor_id = codes "ana"; role = manager }

abbrev circumstances : Circumstances
circumstances = record {
  now = 20;
  action_request_id = 5;
  action_execution_id = 6;
  digest = λ c. 99;
  logged = ok tt;
  course = runs;
  recorded = ok tt;
}

abbrev approved : ActionRequest
approved = approved_request 20 (codes "ana") manager pending

approve-Decidable_example :
    (request : ActionRequest) × (Decidable ana 4 1 (store pending) request
      × (has_lapsed 20 request.expires_at ≡ false)
      × (store approved
          ≡ save_request (approved_request 20 (codes "ana") manager request) (store pending)))
unfolding approve decidable_request approve_request has_lapsed require_action_approval
    create_proposal
approve-Decidable_example =
    approve-Decidable ana 4 1 (store pending) circumstances (store approved) refl

evaluated : evaluate context (find_definition context.action_name registry) ≡ policy
unfolding evaluate is_forbidden_alias forbidden_actions generic_actions find_definition
    default_definitions evaluate_registered is_allowed_agent contains_nested_danger
    dangerous_argument_keys evaluate_input is_in_scope allows_status default_result
evaluated = refl

-- The definition of the default registry, written out.
abbrev marking : ActionDefinition
marking = record {
  name = codes "mark_for_manual_review";
  model_validate = accept;
  default_policy = approval_required;
  reversible = true;
  allowed_agents = content_reviewer ∷ [];
  handler = λ i g. transact (guarded_transition g manual_review_required human_review);
  required_role = some reviewer;
  allowed_campaign_statuses = reviewing ∷ [];
  allowed_workflow_statuses = reviewing ∷ [];
  approval_ttl_seconds = some 3600;
}

abbrev scope : Scope
scope = record { campaign = campaign; workflow = workflow; request = approved }

abbrev running : ActionRequest
running = mark_executing (save_latest_policy_result 30 policy context none approved)

abbrev reservation : Reservation
reservation = record {
  request = running;
  execution = mark_running 30 (new_execution 6 4 99 guard);
  definition = marking;
  guard = guard;
}

abbrev after : Store
after = record {
  rows = rows;
  requests = running ∷ [];
  executions = mark_running 30 (new_execution 6 4 99 guard) ∷ [];
  events = [];
}

reserve-Allowed_example :
    (scope : Scope) × (Allowed 3600 30 6
        (marking ∷ [])
        (store approved)
        reservation
        after
        4
        (some 2)
        scope
      × IsReserved 30 6 scope (store approved) reservation after)
unfolding reserve load_scope create_proposal reevaluate evaluate is_forbidden_alias
    forbidden_actions execution_context generic_actions find_definition evaluate_registered
    is_allowed_agent contains_nested_danger dangerous_argument_keys evaluate_input is_in_scope
    allows_status default_result expiry has_lapsed pass_gate reserve_execution has_execution_key
    insert_execution mark_running new_execution mark_executing save_latest_policy_result
    approval_gate decision_gate execution_guard role_satisfies_requirement role_text
reserve-Allowed_example =
    reserve-Allowed 3600 30 6 (marking ∷ []) (store approved) reservation after 4 (some 2) refl

-- The approved request is reserved and completed.
abbrev history_of_marking : List Call
history_of_marking = reserves 3600 30 6 (marking ∷ []) 4 (some 2) ∷ completes 40 6 ∷ []

approved-Sound : Sound (store approved)
approved-Sound = record {
  requests_distinct = (tt, tt);
  executions_distinct = tt;
  one_execution = tt;
  agree = tt;
}

history-Sound_example : Sound (history history_of_marking (store approved))
history-Sound_example = history-Sound history_of_marking (store approved) approved-Sound

history-Lives_example :
    (r' : ActionRequest) × (find_request 4 (history history_of_marking (store approved)) ≡ some r')
    × Lives approved r'
unfolding create_proposal
history-Lives_example =
    history-Lives history_of_marking (store approved) 4 approved approved-Sound refl

-- It ends completed, two versions later.
marking_completes :
    (r : ActionRequest) × (find_request 4 (history history_of_marking (store approved)) ≡ some r)
    × (r.status ≡ ActionRequestStatus.completed)
    × (r.version ≡ 4)
unfolding history perform reserve load_scope create_proposal reevaluate evaluate is_forbidden_alias
    forbidden_actions execution_context generic_actions find_definition evaluate_registered
    is_allowed_agent contains_nested_danger dangerous_argument_keys evaluate_input is_in_scope
    allows_status default_result expiry has_lapsed pass_gate reserve_execution has_execution_key
    insert_execution mark_running new_execution mark_executing save_latest_policy_result
    approval_gate decision_gate execution_guard role_satisfies_requirement role_text commit_success
    required_pair mark_request_completed mark_execution_completed stage_action_event same_event_key
marking_completes = (_, refl, refl, refl)
