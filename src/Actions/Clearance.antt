-- ===== src/Actions/Clearance.antt =====
-- What `_reserve` has checked when it lets an action run.
use ai_game.Base.{
  ℕ, ◌+◌, ◌≡◌, refl, ◌≢◌, ◌⊎◌, inl, inr, true, false, Option, none, some, List, [], ◌∷◌, arith, any,
  put, ◌++◌, Bool-cases, Option-cases,
}
use ai_game.Errors.{ok, Result-cases}
use ai_game.Constants.{
  UserRole, safe, approval_required, ActionRequestStatus, proposed, executing,
  ActionExecutionStatus,
}
use ai_game.Auth.Roles.{role_satisfies_requirement}
use ai_game.Auth.Tokens.{parse_role-role_text}
use ai_game.Auth.Levels.{Reaches, reaches}
use ai_game.Workflow.Tables.{find_campaign, find_workflow}
use ai_game.Actions.Policy.{
  PolicyContext, PolicyResult, ActionDefinition, find_definition, evaluate,
}
use ai_game.Actions.Permission.{Permits, evaluate_iff}
use ai_game.Actions.Tables.{ActionRequest, Store, find_request, request_key}
use ai_game.Actions.Requests.{save_latest_policy_result, mark_executing}
use ai_game.Actions.Executions.{new_execution, insert_execution, mark_running, same_request}
use ai_game.Actions.Reserve.{
  Scope, is_stale_version, load_scope, execution_context, has_lapsed, Gate, passes, commits, aborts,
  approval_gate, decision_gate, needs_approval, column_role, is_forbidden, Reservation,
  execution_guard, reserve_execution, pass_gate, reevaluate, reserve,
}

-- The scope of a request in the tables.
abbrev pub InScope : ℕ → Option ℕ → Store → Scope → Type 0
InScope action_request_id expected_version store scope =
    (find_request action_request_id store ≡ some scope.request)
    × (find_campaign scope.request.campaign_id store.rows ≡ some scope.campaign)
    × (find_workflow scope.request.workflow_id store.rows ≡ some scope.workflow)
    × (scope.workflow.campaign_id ≡ scope.campaign.campaign_id)
    × (is_stale_version expected_version scope.request.version ≡ false)

pub load_scope-InScope :
    (id : ℕ) (expected : Option ℕ) (store : Store) (scope : Scope)
    → load_scope id expected store ≡ ok scope
    → InScope id expected store scope
unfolding load_scope
load_scope-InScope id expected store scope h = elim (Option-cases (find_request id store)) [
  | inl f ↦ ground (arith, h, f)
  | inr (request, f) ↦ elim (Option-cases (find_campaign request.campaign_id store.rows)) [
    | inl c ↦ ground (arith, h, f, c)
    | inr (campaign, c) ↦ elim (Option-cases (find_workflow request.workflow_id store.rows)) [
      | inl w ↦ ground (arith, h, f, c, w)
      | inr (workflow, w) ↦ ground (arith, h, f, c, w)
    ]
  ]
]

-- No role is required, or the approver's role reaches it.
pub data RoleReaches : Option UserRole → Option UserRole → Type 0 where
  unrequired : {approved_role : Option UserRole} → RoleReaches approved_role none
  reached : {actual role : UserRole} → Reaches actual role → RoleReaches (some actual) (some role)

satisfies-RoleReaches :
    (actual required : Option UserRole)
    → role_satisfies_requirement (column_role actual) required ≡ true
    → RoleReaches actual required
unfolding role_satisfies_requirement
satisfies-RoleReaches actual none h = unrequired
satisfies-RoleReaches none (some role) h = ground (arith, h)
satisfies-RoleReaches (some a) (some role) h =
    reached (reaches a role (ground (arith, h, parse_role-role_text a)))

-- Why an action may run: the fresh policy calls it safe and the request is either approved or proposed and
-- never asked for approval; or the fresh policy asks for approval, and the request was approved by a role
-- that reaches the one that it asks for.
pub data Cleared (context : PolicyContext) (found : Option ActionDefinition)
    (request : ActionRequest) : Type 0 where
  as_safe :
      Permits context found safe
      → (request.status ≡ ActionRequestStatus.approved)
        ⊎ ((request.status ≡ proposed) × (request.policy_decision ≢ approval_required))
      → Cleared context found request
  as_approved :
      Permits context found approval_required
      → request.status ≡ ActionRequestStatus.approved
      → RoleReaches request.approved_role (evaluate context found).required_role
      → Cleared context found request

module _ (ttl now : ℕ) (context : PolicyContext) (found : Option ActionDefinition)
    (request : ActionRequest) where
  abbrev fresh_policy : PolicyResult
  fresh_policy = evaluate context found

  approval_gate-passes :
      approval_gate ttl now fresh_policy context request ≡ passes
      → (request.status ≡ ActionRequestStatus.approved)
        × (role_satisfies_requirement (column_role request.approved_role) fresh_policy.required_role
            ≡ true)
  unfolding approval_gate
  approval_gate-passes h = ground (arith, h)

  decision_gate-Cleared :
      is_forbidden fresh_policy.decision ≡ false
      → decision_gate ttl now fresh_policy context request ≡ passes
      → Cleared context found request
  unfolding decision_gate
  decision_gate-Cleared f h = elim (Bool-cases (needs_approval fresh_policy.decision)) [
    | inl n ↦
        let (approved, satisfied) = approval_gate-passes (ground (arith, h, n)) in
        as_approved
          ((evaluate_iff context approval_required (ground arith) found).0 (ground (arith, n)))
          approved
          (satisfies-RoleReaches request.approved_role fresh_policy.required_role satisfied)
    | inr n ↦
        as_safe ((evaluate_iff context safe (ground arith) found).0 (ground (arith, n, f)))
          (ground (arith, h, n))
  ]

saved-Cleared :
    (now : ℕ) (result : PolicyResult) (context : PolicyContext) (found : Option ActionDefinition)
    (request : ActionRequest)
    → Cleared context found (save_latest_policy_result now result context none request)
    → Cleared context found request
unfolding save_latest_policy_result
saved-Cleared now result context found request (as_safe p s) = as_safe p s
saved-Cleared now result context found request (as_approved p s r) = as_approved p s r

-- What a reservation writes: the request runs under its next version, and it has the one execution.
abbrev pub IsReserved : (now execution_id : ℕ) → Scope → Store → Reservation → Store → Type 0
IsReserved now execution_id scope store r store' =
    (r.guard ≡ execution_guard scope)
    × (any (same_request scope.request.action_request_id) store.executions ≡ false)
    × (r.execution.action_execution_id ≡ execution_id)
    × (r.execution.action_request_id ≡ scope.request.action_request_id)
    × (r.execution.status ≡ ActionExecutionStatus.running)
    × (store'.executions ≡ store.executions ++ r.execution ∷ [])
    × (r.request.status ≡ executing)
    × (r.request.version ≡ scope.request.version + 1)
    × (store'.requests ≡ put request_key r.request store.requests)
    × (store'.rows ≡ store.rows)

-- The row before the reservation, but for the columns of the latest policy.
abbrev SameRequest : ActionRequest → ActionRequest → Type 0
SameRequest scoped request =
    (request.action_request_id ≡ scoped.action_request_id) × (request.version ≡ scoped.version)

pub reserve_execution-IsReserved :
    (now execution_id : ℕ) (found : Option ActionDefinition) (scope : Scope)
    (request : ActionRequest) (store : Store) (r : Reservation) (store' : Store)
    → SameRequest scope.request request
    → reserve_execution now execution_id found scope request store ≡ ok (r, store')
    → IsReserved now execution_id scope store r store'
unfolding reserve_execution insert_execution new_execution mark_running mark_executing
reserve_execution-IsReserved now execution_id found scope request store r store' (i, v) h =
    ground (arith, h, i, v)

module _ (ttl now execution_id : ℕ) (registry : List ActionDefinition) (store : Store)
    (r : Reservation) (store' : Store) where
  abbrev fresh : Scope → PolicyResult
  fresh scope =
      evaluate (execution_context scope) (find_definition scope.request.action_name registry)

  abbrev checked : Scope → ActionRequest
  checked scope =
      save_latest_policy_result now (fresh scope) (execution_context scope) none scope.request

  abbrev PassedTests : Scope → Type 0
  PassedTests scope =
      (is_forbidden (fresh scope).decision ≡ false)
      × (has_lapsed now scope.request.expires_at ≡ false)
      × (decision_gate ttl now (fresh scope) (execution_context scope) (checked scope) ≡ passes)
      × (reserve_execution now execution_id (find_definition scope.request.action_name registry)
            scope (checked scope) store
          ≡ ok (r, store'))

  gate_passes :
      (scope : Scope) (gate : Gate)
      → decision_gate ttl now (fresh scope) (execution_context scope) (checked scope) ≡ gate
      → is_forbidden (fresh scope).decision ≡ false
      → has_lapsed now scope.request.expires_at ≡ false
      → pass_gate now execution_id
          (find_definition scope.request.action_name registry)
          scope
          (checked scope)
          store
          gate
        ≡ (ok r, store')
      → PassedTests scope
  unfolding pass_gate
  gate_passes scope passes g f l h = (f, l, g, ground (arith, h))
  gate_passes scope (commits request e) g f l h = ground (arith, h)
  gate_passes scope (aborts e) g f l h = ground (arith, h)

  -- A reservation passed the tests of the policy and the time, and the gate.
  passed_tests :
      (scope : Scope)
      → reevaluate ttl now execution_id registry scope store ≡ (ok r, store')
      → PassedTests scope
  unfolding reevaluate save_latest_policy_result pass_gate
  passed_tests scope h = elim (Bool-cases (is_forbidden (fresh scope).decision)) [
    | inl f ↦ ground (arith, h, f)
    | inr f ↦ elim (Bool-cases (has_lapsed now scope.request.expires_at)) [
      | inl l ↦ ground (arith, h, f, l)
      | inr l ↦
          gate_passes scope
            (decision_gate ttl now (fresh scope) (execution_context scope) (checked scope)) refl f l
            (ground (arith, h, f, l))
    ]
  ]

  -- The scope is that of the request, it has not lapsed, and it is cleared.
  abbrev pub Allowed : ℕ → Option ℕ → Scope → Type 0
  Allowed id expected scope =
      InScope id expected store scope
      × (has_lapsed now scope.request.expires_at ≡ false)
      × Cleared (execution_context scope) (find_definition scope.request.action_name registry)
          scope.request

  reevaluate-Allowed :
      (id : ℕ) (expected : Option ℕ) (scope : Scope)
      → load_scope id expected store ≡ ok scope
      → reevaluate ttl now execution_id registry scope store ≡ (ok r, store')
      → Allowed id expected scope × IsReserved now execution_id scope store r store'
  unfolding save_latest_policy_result
  reevaluate-Allowed id expected scope l h =
      let (permitted, lapsed, gate, reserved) = passed_tests scope h in
      (
        (
          load_scope-InScope id expected store scope l,
          lapsed,
          saved-Cleared now (fresh scope) (execution_context scope) _ scope.request
              (decision_gate-Cleared ttl now _ _ (checked scope) permitted gate),
        ),
        reserve_execution-IsReserved now execution_id _ scope (checked scope) store r store'
            (refl, refl) reserved,
      )

  -- An action is reserved only for a request that is there at the expected version, in the scope of its
  -- campaign and workflow, has not lapsed, and is cleared: the fresh policy permits it as safe and it was
  -- approved, or proposed without need of an approval, or the fresh policy asks for an approval, which was
  -- given by a role that reaches the one asked for. No execution of the request was there. It then runs
  -- under its next version with one execution, and nothing else is changed.
  pub reserve-Allowed :
      (id : ℕ) (expected : Option ℕ)
      → reserve ttl now execution_id registry id expected store ≡ (ok r, store')
      → (scope : Scope) × (Allowed id expected scope
          × IsReserved now execution_id scope store r store')
  unfolding reserve
  reserve-Allowed id expected h = elim (Result-cases (load_scope id expected store)) [
    | inr (e, l) ↦ ground (arith, h, l)
    | inl (scope, l) ↦ (scope, reevaluate-Allowed id expected scope l (ground (arith, h, l)))
  ]
