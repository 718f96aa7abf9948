-- ===== src/Actions/Reserving.antt =====
-- What `_reserve` does to the tables, on each of its ends.
use ai_game.Base.{
  ℕ, ◌+◌, ◌≡◌, refl, ap, ◌∙◌, ◌⊎◌, inl, inr, true, ◌||◌, Option, none, some, List, arith, key-find,
  find-put, Bool-cases, Option-cases,
}
use ai_game.Errors.{Error, ok, Result-cases}
use ai_game.Constants.{ActionRequestStatus, proposed, executing, expired}
use ai_game.Actions.Policy.{
  policy_reevaluation_approval_required, PolicyContext, PolicyResult, ActionDefinition,
  find_definition, evaluate,
}
use ai_game.Actions.Tables.{
  ActionRequest, Store, request_key, find_request, find_execution, save_request,
}
use ai_game.Actions.Requests.{
  is_proposed, is_expirable, is_approved, save_latest_policy_result,
  reject_after_policy_reevaluation, mark_pending_approval, mark_executing, expire_request,
  expired_request,
}
use ai_game.Actions.Executions.{new_execution, insert_execution, mark_running}
use ai_game.Actions.Reserve.{
  Scope, load_scope, execution_context, has_lapsed, expiry, Gate, passes, commits, aborts,
  approval_gate, decision_gate, needs_approval, is_forbidden, Reservation, reserved,
  reserve_execution, pass_gate, reevaluate, reserve,
}
use ai_game.Actions.Clearance.{load_scope-InScope, reserve_execution-IsReserved}
use ai_game.Actions.Ledger.{put-put}
use ai_game.Actions.Life.{
  Step, asks, turns_down, denies_proposed, denies_approved, lapses_pending, lapses_approved,
  runs_proposed, runs_approved, Moves, stays, steps, is_waiting,
}
use ai_game.Actions.Effects.{Effect, idles, writes, begins}

load_scope-waits :
    (id : ℕ) (expected : Option ℕ) (s : Store) (scope : Scope)
    → load_scope id expected s ≡ ok scope
    → is_waiting scope.request.status ≡ true
unfolding load_scope
load_scope-waits id expected s scope h = elim (Option-cases (find_request id s)) [
  | inl f ↦ ground (arith, h, f)
  | inr (request, f) ↦ ground (arith, h, f)
]

denied : (t : ActionRequestStatus) → is_waiting t ≡ true → Step t ActionRequestStatus.rejected
denied proposed w = denies_proposed
denied ActionRequestStatus.pending_approval w = turns_down
denied ActionRequestStatus.approved w = denies_approved
denied _ w = ground arith

lapses : (t : ActionRequestStatus) → is_expirable t ≡ true → Step t expired
lapses ActionRequestStatus.pending_approval w = lapses_pending
lapses ActionRequestStatus.approved w = lapses_approved
lapses _ w = ground arith

runs : (t : ActionRequestStatus) → (is_proposed t || is_approved t) ≡ true → Step t executing
runs proposed w = runs_proposed
runs ActionRequestStatus.approved w = runs_approved
runs _ w = ground arith

-- What the gate commits is a move of the request.
module _ (ttl now : ℕ) (policy : PolicyResult) (context : PolicyContext) (a : ActionRequest) where
  approval_gate-Moves :
      (a' : ActionRequest) (e : Error)
      → approval_gate ttl now policy context a ≡ commits a' e
      → (a'.action_request_id ≡ a.action_request_id) × Moves a a'
  unfolding approval_gate save_latest_policy_result mark_pending_approval
      reject_after_policy_reevaluation
  approval_gate-Moves a' e h = elim (Bool-cases (is_proposed a.status)) [
    | inl p ↦
        let eq : mark_pending_approval (expiry ttl now policy.expires_in_seconds) (
              save_latest_policy_result now policy context
                (some policy_reevaluation_approval_required) a)
            ≡ a' =
          ground (arith, h, p) in
        let was : a.status ≡ proposed = ground (arith, p) in
        rw (← eq) (refl, steps (rw was asks) refl)
    | inr p ↦ elim (Bool-cases (is_approved a.status)) [
      | inr q ↦ let eq : a ≡ a' = ground (arith, h, p, q) in rw (← eq) (refl, stays refl refl)
      | inl q ↦
          let eq : reject_after_policy_reevaluation now (
                save_latest_policy_result now policy context
                  (some policy_reevaluation_approval_required) a)
              ≡ a' =
            ground (arith, h, p, q) in
          let was : a.status ≡ ActionRequestStatus.approved = ground (arith, q) in
          rw (← eq) (refl, steps (rw was denies_approved) refl)
    ]
  ]

  decision_gate-Moves :
      (a' : ActionRequest) (e : Error)
      → decision_gate ttl now policy context a ≡ commits a' e
      → (a'.action_request_id ≡ a.action_request_id) × Moves a a'
  unfolding decision_gate
  decision_gate-Moves a' e h = elim (Bool-cases (needs_approval policy.decision)) [
    | inl n ↦ approval_gate-Moves a' e (ground (arith, h, n))
    | inr n ↦ let eq : a ≡ a' = ground (arith, h, n) in rw (← eq) (refl, stays refl refl)
  ]

  passed_gate-waits :
      decision_gate ttl now policy context a ≡ passes
      → (is_proposed a.status || is_approved a.status) ≡ true
  unfolding decision_gate approval_gate
  passed_gate-waits h = ground (arith, h)

-- The row that is reserved, and that the execution's identifier is fresh.
reserved_rows :
    (now execution_id : ℕ) (found : Option ActionDefinition) (scope : Scope) (b : ActionRequest)
    (s : Store) (r : Reservation) (s' : Store)
    → reserve_execution now execution_id found scope b s ≡ ok (r, s')
    → (r.request ≡ mark_executing b) × (find_execution execution_id s ≡ none)
unfolding reserve_execution insert_execution new_execution mark_running mark_executing
reserved_rows now execution_id found scope b s r s' h = ground (arith, h)

-- The columns of the policy do not count.
same-Moves :
    (a b a' : ActionRequest) → b.status ≡ a.status → b.version ≡ a.version → Moves b a' → Moves a a'
same-Moves a b a' s v (stays t w) = stays (t ∙ s) (w ∙ v)
same-Moves a b a' s v (steps t w) = steps (rw (← s) t) (w ∙ ap (λ n. n + 1) v)

-- A write to the request of the scope, with the columns of the policy or not.
module _ (s : Store) (a : ActionRequest) (f : find_request a.action_request_id s ≡ some a)
    (w : is_waiting a.status ≡ true) (b : ActionRequest)
    (i : b.action_request_id ≡ a.action_request_id) (t : b.status ≡ a.status)
    (v : b.version ≡ a.version) where
  saved-Effect :
      (a' : ActionRequest)
      → a'.action_request_id ≡ b.action_request_id
      → Moves b a'
      → Effect s (save_request a' s)
  saved-Effect a' same m = writes a a' f w (same ∙ i) (same-Moves a b a' t v m) refl refl

  found_again : find_request b.action_request_id (save_request b s) ≡ some b
  found_again = ground (arith, find-put request_key b.action_request_id b s.requests, i, f)

  lapsed-Effect : Effect s (expire_request b.action_request_id b.version (save_request b s)).1
  unfolding expire_request
  lapsed-Effect = elim (Bool-cases (is_expirable b.status)) [
    | inl e ↦
        let eq : (expire_request b.action_request_id b.version (save_request b s)).1
            ≡ save_request (expired_request b) (save_request b s) =
          ground (arith, found_again, e) in
        rw eq (
          writes a (expired_request b) f w i
            (same-Moves a b (expired_request b) t v (steps (lapses b.status e) refl))
            (put-put request_key (expired_request b) b s.requests refl) refl)
    | inr e ↦
        let eq : (expire_request b.action_request_id b.version (save_request b s)).1
            ≡ save_request b s =
          ground (arith, found_again, e) in
        rw eq (saved-Effect b refl (stays refl refl))
  ]

  -- The reservation of the request, when the gate passes.
  reserved-Effect :
      (now execution_id : ℕ) (found : Option ActionDefinition) (scope : Scope)
      → scope.request ≡ a
      → (is_proposed a.status || is_approved a.status) ≡ true
      → Effect s (reserved s (reserve_execution now execution_id found scope b s)).1
  unfolding mark_executing
  reserved-Effect now execution_id found scope own ready =
      elim (Result-cases (reserve_execution now execution_id found scope b s)) [
        | inr (e, h) ↦ rw h (idles refl refl)
        | inl ((r, s'), h) ↦
            let (row, fresh) = reserved_rows now execution_id found scope b s r s' h in
            let (_, first, id, request, run, executions, status, version, requests, _) =
              reserve_execution-IsReserved now execution_id found scope b s r s'
                (rw own i, rw own v) h in
            let same : r.request.action_request_id ≡ a.action_request_id = rw row i in
            let step : Step a.status r.request.status = rw status (runs a.status ready) in
            rw h (
              begins a r.request r.execution f w same (steps step (rw (← own) version)) status
                (rw (← own) request) run (rw (← own) first) (rw id fresh) requests executions)
      ]

Gate-cases :
    (g : Gate)
    → (g ≡ passes)
      ⊎ ((a : ActionRequest) × (e : Error) × (g ≡ commits a e))
      ⊎ ((e : Error) × (g ≡ aborts e))
Gate-cases passes = inl refl
Gate-cases (commits a e) = inr (inl (a, e, refl))
Gate-cases (aborts e) = inr (inr (e, refl))

-- The row of the scope is the one that the table has.
scope_found :
    (id : ℕ) (expected : Option ℕ) (s : Store) (scope : Scope)
    → load_scope id expected s ≡ ok scope
    → find_request scope.request.action_request_id s ≡ some scope.request
scope_found id expected s scope l =
    let (f, _, _, _, _) = load_scope-InScope id expected s scope l in
    ap (λ i. find_request i s) (key-find request_key id s.requests scope.request f) ∙ f

module _ (ttl now execution_id : ℕ) (s : Store) (scope : Scope)
    (f : find_request scope.request.action_request_id s ≡ some scope.request)
    (w : is_waiting scope.request.status ≡ true) where
  gate-Effect :
      (found : Option ActionDefinition) (policy : PolicyResult) (context : PolicyContext)
      (b : ActionRequest)
      → b.action_request_id ≡ scope.request.action_request_id
      → b.status ≡ scope.request.status
      → b.version ≡ scope.request.version
      → Effect s
          (pass_gate now execution_id found scope b s (decision_gate ttl now policy context b)).1
  unfolding pass_gate reserve_execution
  gate-Effect found policy context b i t v =
      elim (Gate-cases (decision_gate ttl now policy context b)) [
        | inl p ↦ rw p (
            reserved-Effect s scope.request f w b i t v now execution_id found scope refl
              (rw (← t) (passed_gate-waits ttl now policy context b p)))
        | inr (inl (a', e, c)) ↦
            let (same, m) = decision_gate-Moves ttl now policy context b a' e c in
            rw c (saved-Effect s scope.request f w b i t v a' same m)
        | inr (inr (e, x)) ↦ rw x (idles refl refl)
      ]

  reevaluate-Effect :
      (registry : List ActionDefinition)
      → Effect s (reevaluate ttl now execution_id registry scope s).1
  unfolding reevaluate save_latest_policy_result reject_after_policy_reevaluation
  reevaluate-Effect registry =
      let context = execution_context scope in
      let policy = evaluate context (find_definition scope.request.action_name registry) in
      let checked = save_latest_policy_result now policy context none scope.request in
      elim (Bool-cases (is_forbidden policy.decision)) [
        | inl d ↦
            rw (reevaluate, d)
              (saved-Effect s scope.request f w checked refl refl refl _ refl
                (steps (denied scope.request.status w) refl))
        | inr d ↦ elim (Bool-cases (has_lapsed now checked.expires_at)) [
          | inl l ↦ rw (reevaluate, d, l) (lapsed-Effect s scope.request f w checked refl refl refl)
          | inr l ↦
              rw (reevaluate, d, l)
                (gate-Effect (find_definition scope.request.action_name registry) policy context
                  checked refl refl refl)
        ]
      ]

-- Whatever its end, `_reserve` does what one transaction may do.
pub reserve-Effect :
    (ttl now execution_id : ℕ) (registry : List ActionDefinition) (id : ℕ) (expected : Option ℕ)
    (s : Store)
    → Effect s (reserve ttl now execution_id registry id expected s).1
unfolding reserve
reserve-Effect ttl now execution_id registry id expected s =
    elim (Result-cases (load_scope id expected s)) [
      | inr (e, l) ↦ rw (reserve, l) (idles refl refl)
      | inl (scope, l) ↦
          rw (reserve, l)
            (reevaluate-Effect ttl now execution_id s scope (scope_found id expected s scope l)
              (load_scope-waits id expected s scope l) registry)
    ]
