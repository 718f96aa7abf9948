-- ===== src/Actions/Life.antt =====
-- The life of an action request, apart from the columns of the policy, and what its execution says of it.
use ai_game.Base.{
  ℕ, ◌+◌, ◌≡◌, refl, Bool, true, false, some, List, arith, ◌==◌, All, Distinct, put, find, find-put,
  Bool-cases, inl, inr,
}
use ai_game.Constants.{ActionRequestStatus, proposed, executing, expired, ActionExecutionStatus}
use ai_game.Actions.Tables.{ActionRequest, ActionExecution, Store, request_key, execution_key}

-- The steps of a request from status to status.
pub data Step : ActionRequestStatus → ActionRequestStatus → Type 0 where
  asks : Step proposed ActionRequestStatus.pending_approval
  approves : Step ActionRequestStatus.pending_approval ActionRequestStatus.approved
  turns_down : Step ActionRequestStatus.pending_approval ActionRequestStatus.rejected
  denies_proposed : Step proposed ActionRequestStatus.rejected
  denies_approved : Step ActionRequestStatus.approved ActionRequestStatus.rejected
  lapses_pending : Step ActionRequestStatus.pending_approval expired
  lapses_approved : Step ActionRequestStatus.approved expired
  runs_proposed : Step proposed executing
  runs_approved : Step ActionRequestStatus.approved executing
  succeeds : Step executing ActionRequestStatus.completed
  fails : Step executing ActionRequestStatus.failed

-- A request keeps its status and version, or takes a step under the next version.
pub data Moves (r r' : ActionRequest) : Type 0 where
  stays : r'.status ≡ r.status → r'.version ≡ r.version → Moves r r'
  steps : Step r.status r'.status → r'.version ≡ r.version + 1 → Moves r r'

pub data Lives : ActionRequest → ActionRequest → Type 0 where
  here : {r : ActionRequest} → Lives r r
  onward : {r r1 r2 : ActionRequest} → Moves r r1 → Lives r1 r2 → Lives r r2

-- The status of a request whose execution has a status.
pub data Agrees : ActionExecutionStatus → ActionRequestStatus → Type 0 where
  both_run : Agrees ActionExecutionStatus.running executing
  both_completed : Agrees ActionExecutionStatus.completed ActionRequestStatus.completed
  both_failed : Agrees ActionExecutionStatus.failed ActionRequestStatus.failed
  was_cancelled : Agrees ActionExecutionStatus.cancelled ActionRequestStatus.failed

-- The requests that may still be decided on or executed.
abbrev pub is_waiting : ActionRequestStatus → Bool
is_waiting proposed = true
is_waiting ActionRequestStatus.pending_approval = true
is_waiting ActionRequestStatus.approved = true
is_waiting _ = false

Agrees-waits :
    (s : ActionExecutionStatus) (t : ActionRequestStatus) → Agrees s t → is_waiting t ≡ false
Agrees-waits _ _ both_run = refl
Agrees-waits _ _ both_completed = refl
Agrees-waits _ _ both_failed = refl
Agrees-waits _ _ was_cancelled = refl

abbrev pub request_of : ActionExecution → ℕ
request_of execution = execution.action_request_id

-- The request of an execution is there and agrees with it.
abbrev pub Matches : List ActionRequest → ActionExecution → Type 0
Matches requests e =
    (r : ActionRequest) × (find request_key e.action_request_id requests ≡ some r)
    × Agrees e.status r.status

-- One row for each identifier, one execution for each request, and both agree.
pub record Sound (store : Store) : Type 0 where
  pub requests_distinct : Distinct request_key store.requests
  pub executions_distinct : Distinct execution_key store.executions
  pub one_execution : Distinct request_of store.executions
  pub agree : All (Matches store.requests) store.executions

-- A request that waits has no execution, so that no execution's request changes with it.
pub waiting-Matches :
    (a a' : ActionRequest) (requests : List ActionRequest) (e : ActionExecution)
    → find request_key a.action_request_id requests ≡ some a
    → a'.action_request_id ≡ a.action_request_id
    → is_waiting a.status ≡ true
    → Matches requests e
    → Matches (put request_key a' requests) e
waiting-Matches a a' requests e f same w (r, g, m) =
    elim (Bool-cases (e.action_request_id == a'.action_request_id)) [
      | inl hit ↦
          let id : e.action_request_id ≡ a.action_request_id = ground (arith, hit, same) in
          let is_a : r ≡ a = cc (f, g, id) in
          absurd (ground (arith, Agrees-waits e.status r.status m, w, is_a))
      | inr elsewhere ↦
          (r, ground (arith, find-put request_key e.action_request_id a' requests, g, elsewhere), m)
    ]

-- The request `j` of the new table is a move away from that of the old one.
abbrev pub MovesAt : ℕ → ActionRequest → List ActionRequest → Type 0
MovesAt j r requests = (r' : ActionRequest) × (find request_key j requests ≡ some r') × Moves r r'

pub put-Moves :
    (j : ℕ) (r a a' : ActionRequest) (requests : List ActionRequest)
    → find request_key j requests ≡ some r
    → find request_key a.action_request_id requests ≡ some a
    → a'.action_request_id ≡ a.action_request_id
    → Moves a a'
    → MovesAt j r (put request_key a' requests)
put-Moves j r a a' requests f g same m = elim (Bool-cases (j == a.action_request_id)) [
  | inl hit ↦
      let id : j ≡ a.action_request_id = ground (arith, hit) in
      let is_a : a ≡ r = cc (f, g, id) in
      (a', ground (arith, find-put request_key j a' requests, f, same, hit), rw (← is_a) m)
  | inr elsewhere ↦
      (r, ground (arith, find-put request_key j a' requests, f, same, elsewhere), stays refl refl)
]
