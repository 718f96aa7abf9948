-- ===== src/Actions/Reserve.antt =====
-- app/agentic/actions/executor.py, `_reserve`: the last test of a request before its action runs. The
-- clock and the id of the execution's row are arguments; row locks make it one step. Some refusals commit
-- what they have written, so that a refusal comes with tables.
use ai_game.Base.{
  ℕ, ◌+◌, Bool, true, false, not, ◌&&◌, ◌||◌, Option, none, some, List, ◌==◌, leb, if◌then◌else◌,
  Text,
}
use ai_game.Errors.{
  Error, Result, ok, err, ensure, required, ◌>>=◌, ◌>>◌, action_request_not_found,
  action_scope_conflict, action_expired, action_execution_conflict, action_version_conflict,
  action_policy_reevaluation_denied, action_policy_approval_required, action_approval_required,
  policy_denied,
}
use ai_game.Constants.{
  UserRole, PolicyDecision, approval_required, forbidden, ActionRequestStatus, expired,
}
use ai_game.Auth.Roles.{role_text, role_satisfies_requirement}
use ai_game.Workflow.Tables.{WorkflowRun, Campaign, find_campaign, find_workflow}
use ai_game.Actions.Policy.{
  policy_reevaluation_denied, policy_reevaluation_approval_required, PolicyContext, PolicyResult,
  ActionExecutionGuard, ActionDefinition, find_definition, evaluate,
}
use ai_game.Actions.Tables.{ActionRequest, ActionExecution, Store, find_request, save_request}
use ai_game.Actions.Requests.{
  is_proposed, is_approved, save_latest_policy_result, reject_after_policy_reevaluation,
  mark_pending_approval, mark_executing, expire_request,
}
use ai_game.Actions.Executions.{new_execution, insert_execution, has_execution_key, mark_running}

-- The rows that an action is about.
pub record Scope : Type 0 where
  pub campaign : Campaign
  pub workflow : WorkflowRun
  pub request : ActionRequest

abbrev pub is_expired : ActionRequestStatus → Bool
is_expired expired = true
is_expired _ = false

-- `{EXECUTING, COMPLETED, FAILED, REJECTED}`
abbrev pub is_settled : ActionRequestStatus → Bool
is_settled ActionRequestStatus.executing = true
is_settled ActionRequestStatus.completed = true
is_settled ActionRequestStatus.failed = true
is_settled ActionRequestStatus.rejected = true
is_settled _ = false

-- `expected_version is not None and version != expected_version`
abbrev pub is_stale_version : Option ℕ → ℕ → Bool
is_stale_version none version = false
is_stale_version (some expected_version) version = not (version == expected_version)

-- The first part, of which every refusal rolls back.
unfoldable pub load_scope : ℕ → Option ℕ → Store → Result Scope
load_scope action_request_id expected_version store = do
  request_hint ← required (find_request action_request_id store) action_request_not_found
  campaign ← required (find_campaign request_hint.campaign_id store.rows) action_scope_conflict
  workflow ← required (find_workflow request_hint.workflow_id store.rows) action_scope_conflict
  ensure (workflow.campaign_id == campaign.campaign_id) action_scope_conflict
  request ← required (find_request action_request_id store) action_scope_conflict
  ensure
      ((request.campaign_id == campaign.campaign_id) && request.workflow_id == workflow.workflow_id)
      action_scope_conflict
  ensure (not (is_expired request.status)) action_expired
  ensure (not (is_settled request.status)) action_execution_conflict
  ensure (not (is_stale_version expected_version request.version)) action_version_conflict
  ok (record { campaign = campaign; workflow = workflow; request = request })

-- The context of the policy; the columns that the engine does not read are left out.
unfoldable pub execution_context : Scope → PolicyContext
execution_context scope = record {
  agent_name = scope.request.agent_name;
  action_name = scope.request.action_name;
  arguments = scope.request.arguments;
  campaign_id = scope.campaign.campaign_id;
  workflow_id = scope.workflow.workflow_id;
  revision_number = scope.workflow.revision_number;
  campaign_status = scope.campaign.status;
  workflow_status = scope.workflow.status;
}

-- `expires_at is not None and expires_at <= now`
unfoldable pub has_lapsed : ℕ → Option ℕ → Bool
has_lapsed now none = false
has_lapsed now (some expires_at) = leb expires_at now

-- `expires_in_seconds or action_approval_ttl_seconds`, from now on; zero is false in Python.
unfoldable pub expiry : ℕ → ℕ → Option ℕ → ℕ
expiry ttl now none = now + ttl
expiry ttl now (some seconds) = if seconds == 0 then now + ttl else now + seconds

-- What the tests of the decision and the approval come to: the action may run, or it is refused after the
-- request was written and committed, or refused with a rollback.
pub data Gate : Type 0 where
  passes : Gate
  commits : ActionRequest → Error → Gate
  aborts : Error → Gate

abbrev pub column_role : Option UserRole → Option Text
column_role none = none
column_role (some role) = some (role_text role)

-- `policy` is the fresh result and `request` the row with it.
unfoldable pub approval_gate : (ttl now : ℕ) → PolicyResult → PolicyContext → ActionRequest → Gate
approval_gate ttl now policy context request =
    let saved =
      save_latest_policy_result now policy context (some policy_reevaluation_approval_required)
        request in
    if is_proposed request.status
    then commits (mark_pending_approval (expiry ttl now policy.expires_in_seconds) saved)
        action_policy_approval_required
    else if not (is_approved request.status)
    then commits request action_approval_required
    else if not
        (role_satisfies_requirement (column_role request.approved_role) policy.required_role)
    then commits (reject_after_policy_reevaluation now saved) action_policy_approval_required
    else passes

abbrev pub needs_approval : PolicyDecision → Bool
needs_approval approval_required = true
needs_approval _ = false

abbrev pub is_forbidden : PolicyDecision → Bool
is_forbidden forbidden = true
is_forbidden _ = false

unfoldable pub decision_gate : (ttl now : ℕ) → PolicyResult → PolicyContext → ActionRequest → Gate
decision_gate ttl now policy context request =
    if needs_approval policy.decision
    then approval_gate ttl now policy context request
    else if needs_approval request.policy_decision && not (is_approved request.status)
    then commits request action_policy_approval_required
    else if not (is_proposed request.status || is_approved request.status)
    then aborts action_execution_conflict
    else passes

-- What is reserved.
pub record Reservation : Type 0 where
  pub request : ActionRequest
  pub execution : ActionExecution
  pub definition : ActionDefinition
  pub guard : ActionExecutionGuard

unfoldable pub execution_guard : Scope → ActionExecutionGuard
execution_guard scope = record {
  campaign_id = scope.campaign.campaign_id;
  workflow_id = scope.workflow.workflow_id;
  expected_campaign_status = scope.campaign.status;
  expected_campaign_version = scope.campaign.version;
  expected_workflow_status = scope.workflow.status;
  expected_revision_number = scope.workflow.revision_number;
}

-- The insertion of the execution, in the transaction that writes the request.
unfoldable pub reserve_execution :
    (now execution_id : ℕ)
    → Option ActionDefinition
    → Scope
    → ActionRequest
    → Store
    → Result (Reservation × Store)
reserve_execution now execution_id found scope request store = do
  ensure (not (has_execution_key request.idempotency_key store.executions))
      action_execution_conflict
  definition ← required found policy_denied
  let guard = execution_guard scope
  let execution =
      mark_running now
        (new_execution execution_id request.action_request_id request.idempotency_key guard)
  executions ← insert_execution execution store.executions
  let request' = mark_executing request
  ok (
    record { request = request'; execution = execution; definition = definition; guard = guard },
    record (save_request request' store) { executions = executions },
  )

abbrev pub reserved : Store → Result (Reservation × Store) → Result Reservation × Store
reserved store (ok (reservation, store')) = (ok reservation, store')
reserved store (err e) = (err e, store)

unfoldable pub pass_gate :
    (now execution_id : ℕ)
    → Option ActionDefinition
    → Scope
    → ActionRequest
    → Store
    → Gate
    → Result Reservation × Store
pass_gate now execution_id found scope request store passes =
    reserved store (reserve_execution now execution_id found scope request store)
pass_gate now execution_id found scope request store (commits request' e) =
    (err e, save_request request' store)
pass_gate now execution_id found scope request store (aborts e) = (err e, store)

-- The tests from the fresh policy on.
unfoldable pub reevaluate :
    (ttl now execution_id : ℕ) → List ActionDefinition → Scope → Store → Result Reservation × Store
reevaluate ttl now execution_id registry scope store =
    let found = find_definition scope.request.action_name registry in
    let context = execution_context scope in
    let policy = evaluate context found in
    let request = save_latest_policy_result now policy context none scope.request in
    let denied =
      save_latest_policy_result now policy context (some policy_reevaluation_denied) request in
    if is_forbidden policy.decision
    then (
      err action_policy_reevaluation_denied,
      save_request (reject_after_policy_reevaluation now denied) store,
    )
    else if has_lapsed now request.expires_at
    then (
      err action_expired,
      (expire_request request.action_request_id request.version (save_request request store)).1,
    )
    else pass_gate now execution_id found scope request store
        (decision_gate ttl now policy context request)

-- `_reserve`, under the setting `action_approval_ttl_seconds`
unfoldable pub reserve :
    (ttl now execution_id : ℕ)
    → List ActionDefinition
    → ℕ
    → Option ℕ
    → Store
    → Result Reservation × Store
reserve ttl now execution_id registry action_request_id expected_version store =
    elim (load_scope action_request_id expected_version store) [
      | err e ↦ (err e, store)
      | ok scope ↦ reevaluate ttl now execution_id registry scope store
    ]
