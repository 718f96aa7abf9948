-- ===== src/Actions/Requests.antt =====
-- app/repositories/action_request_repository.py. The clock is an argument.
use ai_game.Base.{
  ℕ, ◌+◌, Bool, true, false, ◌&&◌, ◌||◌, Option, none, some, List, [], ◌∷◌, ◌==◌, if◌then◌else◌,
  Text,
}
use ai_game.Constants.{UserRole, ActionRequestStatus, proposed, executing, expired}
use ai_game.Actions.Policy.{ReasonCode, PolicyContext, PolicyResult}
use ai_game.Actions.Tables.{ActionRequest, Store, find_request, save_request}

abbrev pub is_proposed : ActionRequestStatus → Bool
is_proposed proposed = true
is_proposed _ = false

abbrev pub is_pending : ActionRequestStatus → Bool
is_pending ActionRequestStatus.pending_approval = true
is_pending _ = false

abbrev pub is_approved : ActionRequestStatus → Bool
is_approved ActionRequestStatus.approved = true
is_approved _ = false

-- The row of `create_proposal`.
unfoldable pub create_proposal :
    (now action_request_id agent_run_id idempotency_key : ℕ)
    → PolicyResult
    → PolicyContext
    → ActionRequestStatus
    → (expires_at rejected_at : Option ℕ) → ActionRequest
create_proposal now id run_id key policy context status expires_at rejected_at = record {
  action_request_id = id;
  agent_run_id = run_id;
  workflow_id = context.workflow_id;
  campaign_id = context.campaign_id;
  agent_name = context.agent_name;
  action_name = context.action_name;
  arguments = context.arguments;
  policy_decision = policy.decision;
  policy_reason_code = policy.reason_code;
  required_role = policy.required_role;
  last_policy_decision = policy.decision;
  last_policy_reason_code = policy.reason_code;
  last_required_role = policy.required_role;
  last_policy_campaign_status = context.campaign_status;
  last_policy_workflow_status = context.workflow_status;
  last_policy_revision_number = context.revision_number;
  last_policy_evaluated_at = now;
  status = status;
  expires_at = expires_at;
  approved_by = none;
  approved_role = none;
  approved_at = none;
  rejected_by = none;
  rejected_at = rejected_at;
  version = 1;
  idempotency_key = key;
}

-- `find_by_idempotency_key`
unfoldable pub find_request_by_key : ℕ → List ActionRequest → Option ActionRequest
find_request_by_key key [] = none
find_request_by_key key (request ∷ rest) =
    if key == request.idempotency_key then some request else find_request_by_key key rest

abbrev code_or : ReasonCode → Option ReasonCode → ReasonCode
code_or code none = code
code_or code (some given) = given

-- `save_latest_policy_result`
unfoldable pub save_latest_policy_result :
    ℕ → PolicyResult → PolicyContext → Option ReasonCode → ActionRequest → ActionRequest
save_latest_policy_result now policy context reason_code request = record request {
  last_policy_decision = policy.decision;
  last_policy_reason_code = code_or policy.reason_code reason_code;
  last_required_role = policy.required_role;
  last_policy_campaign_status = context.campaign_status;
  last_policy_workflow_status = context.workflow_status;
  last_policy_revision_number = context.revision_number;
  last_policy_evaluated_at = now;
}

-- `reject_after_policy_reevaluation`
unfoldable pub reject_after_policy_reevaluation : ℕ → ActionRequest → ActionRequest
reject_after_policy_reevaluation now request = record request {
  status = ActionRequestStatus.rejected;
  rejected_at = some now;
  version = request.version + 1;
}

-- `mark_pending_approval`
unfoldable pub mark_pending_approval : ℕ → ActionRequest → ActionRequest
mark_pending_approval expires_at request = record request {
  status = ActionRequestStatus.pending_approval;
  expires_at = some expires_at;
  version = request.version + 1;
}

-- `mark_executing`, `mark_completed`, `mark_failed`
abbrev advanced : ActionRequestStatus → ActionRequest → ActionRequest
advanced status request = record request { status = status; version = request.version + 1 }

unfoldable pub mark_executing : ActionRequest → ActionRequest
mark_executing = advanced executing

unfoldable pub mark_request_completed : ActionRequest → ActionRequest
mark_request_completed = advanced ActionRequestStatus.completed

unfoldable pub mark_request_failed : ActionRequest → ActionRequest
mark_request_failed = advanced ActionRequestStatus.failed

-- `UPDATE … WHERE id AND version AND status … RETURNING id`
abbrev compare_and_set :
    (ActionRequestStatus → Bool)
    → (ActionRequest → ActionRequest)
    → (id expected_version : ℕ) → Store
    → Bool × Store
compare_and_set selected change id expected_version store = elim (find_request id store) [
  | none ↦ (false, store)
  | some request ↦
      if (request.version == expected_version) && selected request.status
      then (true, save_request (change request) store)
      else (false, store)
]

abbrev pub approved_request : ℕ → Text → UserRole → ActionRequest → ActionRequest
approved_request now actor_id actor_role request = record request {
  status = ActionRequestStatus.approved;
  approved_by = some actor_id;
  approved_role = some actor_role;
  approved_at = some now;
  version = request.version + 1;
}

-- `approve`
unfoldable pub approve_request :
    ℕ → Text → UserRole → (id expected_version : ℕ) → Store → Bool × Store
approve_request now actor_id actor_role =
    compare_and_set is_pending (approved_request now actor_id actor_role)

abbrev is_rejectable : ActionRequestStatus → Bool
is_rejectable status = is_proposed status || is_pending status

abbrev pub rejected_request : ℕ → Text → ActionRequest → ActionRequest
rejected_request now actor_id request = record request {
  status = ActionRequestStatus.rejected;
  rejected_by = some actor_id;
  rejected_at = some now;
  version = request.version + 1;
}

-- `reject`
unfoldable pub reject_request : ℕ → Text → (id expected_version : ℕ) → Store → Bool × Store
reject_request now actor_id = compare_and_set is_rejectable (rejected_request now actor_id)

abbrev pub is_expirable : ActionRequestStatus → Bool
is_expirable status = is_pending status || is_approved status

abbrev pub expired_request : ActionRequest → ActionRequest
expired_request = advanced expired

-- `expire`
unfoldable pub expire_request : (id expected_version : ℕ) → Store → Bool × Store
expire_request = compare_and_set is_expirable expired_request
