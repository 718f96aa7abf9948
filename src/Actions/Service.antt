-- ===== src/Actions/Service.antt =====
-- app/service/action_service.py and app/service/policy_service.py: agents propose actions, humans approve,
-- reject and execute them. The proposal stands as it is after sanitising. The hash of
-- `build_idempotency_key` is an argument, and so are the clock, new ids and the answers of the memory log.
use ai_game.Base.{
  ℕ, Bool, true, false, none, some, List, [], ◌∷◌, ◌++◌, ◌==◌, is_none, if◌then◌else◌, Text,
}
use ai_game.Errors.{
  Result, ok, err, ensure, required, ◌>>=◌, ◌>>◌, Tx, transact, agent_run_not_found, agent_context,
  action_request_not_found, action_already_decided, action_expired, action_version_conflict,
  persistence,
}
use ai_game.Constants.{
  AgentName, agent_eq, safe, approval_required, forbidden, ActionRequestStatus, proposed,
}
use ai_game.Auth.Roles.{AuthenticatedActor, require_action_approval, require_action_execution}
use ai_game.Workflow.Tables.{find_campaign, find_workflow}
use ai_game.Actions.Rules.{Fields}
use ai_game.Actions.Policy.{
  PolicyContext, PolicyResult, ActionDefinition, find_definition, evaluate,
}
use ai_game.Actions.Tables.{ActionRequest, Store, find_request}
use ai_game.Actions.Requests.{
  is_pending, create_proposal, find_request_by_key, approve_request, reject_request, expire_request,
}
use ai_game.Actions.Reserve.{has_lapsed, expiry}
use ai_game.Actions.Finish.{Course, execute_action}
use ai_game.Agents.Tables.{AgentRun, find_run}

-- `AgentActionProposal`: the fields that are read here.
pub record AgentActionProposal : Type 0 where
  pub action_name : Text
  pub arguments : Fields

-- What a call finds outside the tables.
pub record Circumstances : Type 0 where
  pub now : ℕ
  pub action_request_id : ℕ
  pub action_execution_id : ℕ
  pub digest : PolicyContext → ℕ
  -- the log of a proposal or a decision
  pub logged : Result (Unit {0})
  -- the run of the handler, and the log of its end
  pub course : Course
  pub recorded : Result (Unit {0})

-- `PolicyService.evaluate`: the context of a proposal; the engine evaluates it with the definition.
unfoldable pub proposal_context :
    List AgentRun → ℕ → AgentName → AgentActionProposal → Store → Result PolicyContext
proposal_context runs agent_run_id agent_name proposal store = do
  run ← required (find_run agent_run_id runs) agent_run_not_found
  campaign ← required (find_campaign run.campaign_id store.rows) agent_context
  workflow ← required (find_workflow run.workflow_id store.rows) agent_context
  ensure (agent_eq run.agent_name agent_name) agent_context
  ok (record {
    agent_name = agent_name;
    action_name = proposal.action_name;
    arguments = proposal.arguments;
    campaign_id = run.campaign_id;
    workflow_id = run.workflow_id;
    revision_number = workflow.revision_number;
    campaign_status = campaign.status;
    workflow_status = workflow.status;
  })

-- The status, the expiry and the time of rejection of a new request.
unfoldable pub proposal_row :
    (ttl now id run_id key : ℕ) → PolicyContext → PolicyResult → ActionRequest
proposal_row ttl now id run_id key context policy =
    let row = create_proposal now id run_id key policy context in
    elim policy.decision [
      | approval_required ↦
          row ActionRequestStatus.pending_approval (some (expiry ttl now policy.expires_in_seconds))
            none
      | forbidden ↦ row ActionRequestStatus.rejected none (some now)
      | safe ↦ row proposed none none
    ]

-- A step that follows in the service, if the step before raised nothing.
abbrev after_log :
    Result (Unit {0}) → (Store → Result (Unit {0}) × Store) → Store → Result (Unit {0}) × Store
after_log (err e) next store = (err e, store)
after_log (ok done) next store = next store

-- The rest of `propose` after its row is committed: a safe action runs at once.
unfoldable pub propose_committed :
    ℕ
    → List ActionDefinition
    → Circumstances
    → PolicyResult
    → ActionRequest
    → Store
    → Result (Unit {0}) × Store
propose_committed ttl registry c policy request store =
    after_log c.logged
      (elim policy.decision [
        | safe ↦
            execute_action ttl c.now c.action_execution_id registry c.course c.recorded
              request.action_request_id none
        | _ ↦ λ store'. (ok tt, store')
      ])
      store

-- The transaction that adds the row: the value is whether the key was not there yet.
unfoldable pub insert_proposal : ActionRequest → Tx Store Bool
insert_proposal request store = elim (find_request_by_key request.idempotency_key store.requests) [
  | some existing ↦ ok (false, store)
  | none ↦
      if is_none (find_request request.action_request_id store)
      then ok (true, record store { requests = store.requests ++ request ∷ [] })
      else err persistence
]

-- `propose`, under the setting `action_approval_ttl_seconds`; the result that it returns is read from the
-- tables.
unfoldable pub propose_evaluated :
    ℕ
    → List ActionDefinition
    → Circumstances
    → ℕ
    → PolicyContext
    → Store
    → Result (Unit {0}) × Store
unfolding proposal_row propose_committed insert_proposal
propose_evaluated ttl registry c agent_run_id context store =
    let policy = evaluate context (find_definition context.action_name registry) in
    let request =
      proposal_row ttl c.now c.action_request_id agent_run_id (c.digest context) context policy in
    let (outcome, store') = transact (insert_proposal request) store in
    elim outcome [
      | err e ↦ (err e, store')
      | ok is_new ↦
          if is_new then propose_committed ttl registry c policy request store' else (ok tt, store')
    ]

unfoldable pub propose :
    ℕ
    → List ActionDefinition
    → Circumstances
    → List AgentRun
    → ℕ
    → AgentName
    → AgentActionProposal
    → Store
    → Result (Unit {0}) × Store
unfolding proposal_context propose_evaluated
propose ttl registry c runs agent_run_id agent_name proposal store =
    elim (proposal_context runs agent_run_id agent_name proposal store) [
      | err e ↦ (err e, store)
      | ok context ↦ propose_evaluated ttl registry c agent_run_id context store
    ]

-- The tests that `approve` and `reject` begin with.
unfoldable pub decidable_request :
    AuthenticatedActor → (id expected_version : ℕ) → Store → Result ActionRequest
decidable_request actor id expected_version store = do
  request ← required (find_request id store) action_request_not_found
  require_action_approval actor request.required_role request.agent_name
  ensure (request.version == expected_version) action_version_conflict
  ensure (is_pending request.status) action_already_decided
  ok request

-- The outcome of a compare-and-set, and the log after it.
abbrev decided : Result (Unit {0}) → Store → Bool × Store → Result (Unit {0}) × Store
decided logged store (true, store') = (logged, store')
decided logged store (false, _) = (err action_version_conflict, store)

-- `approve`
unfoldable pub approve :
    Circumstances
    → AuthenticatedActor
    → (id expected_version : ℕ) → Store
    → Result (Unit {0}) × Store
unfolding decidable_request
approve c actor id expected_version store =
    elim (decidable_request actor id expected_version store) [
      | err e ↦ (err e, store)
      | ok request ↦
          if has_lapsed c.now request.expires_at
          then (err action_expired, (expire_request id expected_version store).1)
          else decided c.logged store
              (approve_request c.now actor.actor_id actor.role id expected_version store)
    ]

-- `reject`
unfoldable pub reject :
    Circumstances
    → AuthenticatedActor
    → (id expected_version : ℕ) → Store
    → Result (Unit {0}) × Store
unfolding decidable_request
reject c actor id expected_version store =
    elim (decidable_request actor id expected_version store) [
      | err e ↦ (err e, store)
      | ok request ↦
          decided c.logged store (reject_request c.now actor.actor_id id expected_version store)
    ]

-- `execute`
unfoldable pub execute :
    ℕ
    → List ActionDefinition
    → Circumstances
    → AuthenticatedActor
    → (id expected_version : ℕ) → Store
    → Result (Unit {0}) × Store
execute ttl registry c actor id expected_version store =
    elim (do
      request ← required (find_request id store) action_request_not_found
      require_action_execution actor request.required_role) [
        | err e ↦ (err e, store)
        | ok done ↦
            execute_action ttl c.now c.action_execution_id registry c.course c.recorded id
              (some expected_version) store
      ]
