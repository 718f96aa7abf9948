-- ===== src/Actions/Histories.antt =====
-- Histories of the transactions on action requests, one after the other in whatever order: proposals,
-- decisions, reservations, handlers, the ends of executions and their records in the memory log.
use ai_game.Base.{ℕ, ◌≡◌, refl, Option, none, some, List, [], ◌∷◌, Option-cases, inl, inr}
use ai_game.Errors.{Error, Result, transact}
use ai_game.Auth.Roles.{AuthenticatedActor}
use ai_game.Workflow.Tables.{Db}
use ai_game.Actions.Policy.{ActionDefinition}
use ai_game.Actions.Tables.{ActionRequest, ActionExecution, Store, find_request, find_execution}
use ai_game.Actions.Reserve.{reserve}
use ai_game.Actions.Finish.{
  commit_success, commit_failure, commit_cancelled, record_terminal_memory,
}
use ai_game.Actions.Service.{Circumstances, insert_proposal, approve, reject}
use ai_game.Actions.Life.{Lives, here, onward, Sound}
use ai_game.Actions.Effects.{Effect, idles, Effect-Moves, Effect-Sound}
use ai_game.Actions.Reserving.{reserve-Effect}
use ai_game.Actions.Remembering.{record_terminal_memory-Effect}
use ai_game.Actions.Calls.{
  insert_proposal-Effect, approve-Effect, reject-Effect, commit_success-Effect,
  commit_failure-Effect, commit_cancelled-Effect,
}

-- A transaction, with what it is called with and finds outside the tables. A handler may leave any rows of
-- campaigns and workflows.
pub data Call : Type 0 where
  proposes : ActionRequest → Call
  approves_request : Circumstances → AuthenticatedActor → (id expected_version : ℕ) → Call
  rejects_request : Circumstances → AuthenticatedActor → (id expected_version : ℕ) → Call
  reserves :
      (ttl now execution_id : ℕ)
      → List ActionDefinition
      → (id : ℕ) → (expected_version : Option ℕ) → Call
  handles : Db → Call
  completes : (now execution_id : ℕ) → Call
  breaks : (now execution_id : ℕ) → Error → Call
  cancels : (now execution_id : ℕ) → Call
  remembers : (now execution_id : ℕ) → Result (Unit {0}) → Call

-- The executor ends an execution together with its request.
abbrev pub of_execution : (ActionExecution → Store → Store) → ℕ → Store → Store
of_execution finish execution_id s = elim (find_execution execution_id s) [
  | none ↦ s
  | some e ↦ finish e s
]

abbrev pub completed_one : (now execution_id : ℕ) → ActionExecution → Store → Store
completed_one now execution_id e s =
    (transact (commit_success now e.action_request_id execution_id) s).1

abbrev pub failed_one : (now execution_id : ℕ) → Error → ActionExecution → Store → Store
failed_one now execution_id error e s =
    (transact (commit_failure now e.action_request_id execution_id error) s).1

abbrev pub cancelled_one : (now execution_id : ℕ) → ActionExecution → Store → Store
cancelled_one now execution_id e s =
    (transact (commit_cancelled now e.action_request_id execution_id) s).1

abbrev pub remembered_one :
    (now execution_id : ℕ) → Result (Unit {0}) → ActionExecution → Store → Store
remembered_one now execution_id answer e s =
    (record_terminal_memory now e.action_request_id execution_id answer s).1

unfoldable pub perform : Call → Store → Store
unfolding insert_proposal approve reject reserve
perform (proposes request) s = (transact (insert_proposal request) s).1
perform (approves_request c actor id expected_version) s = (approve c actor id expected_version s).1
perform (rejects_request c actor id expected_version) s = (reject c actor id expected_version s).1
perform (reserves ttl now execution_id registry id expected_version) s =
    (reserve ttl now execution_id registry id expected_version s).1
perform (handles rows) s = record s { rows = rows }
perform (completes now execution_id) s =
    of_execution (completed_one now execution_id) execution_id s
perform (breaks now execution_id error) s =
    of_execution (failed_one now execution_id error) execution_id s
perform (cancels now execution_id) s = of_execution (cancelled_one now execution_id) execution_id s
perform (remembers now execution_id answer) s =
    of_execution (remembered_one now execution_id answer) execution_id s

unfoldable pub history : List Call → Store → Store
unfolding perform
history [] s = s
history (call ∷ rest) s = history rest (perform call s)

of_execution-Effect :
    (finish : ActionExecution → Store → Store) (execution_id : ℕ) (s : Store)
    → ((e : ActionExecution) → find_execution execution_id s ≡ some e → Effect s (finish e s))
    → Effect s (of_execution finish execution_id s)
of_execution-Effect finish execution_id s h = elim (Option-cases (find_execution execution_id s)) [
  | inl f ↦ rw (of_execution, f) (idles refl refl)
  | inr (e, f) ↦ rw (of_execution, f) (h e f)
]

perform-Effect : (call : Call) (s : Store) → Effect s (perform call s)
unfolding perform
perform-Effect (proposes request) s = insert_proposal-Effect request s
perform-Effect (approves_request c actor id expected) s = approve-Effect c actor id expected s
perform-Effect (rejects_request c actor id expected) s = reject-Effect c actor id expected s
perform-Effect (reserves ttl now execution_id registry id expected) s =
    reserve-Effect ttl now execution_id registry id expected s
perform-Effect (handles rows) s = idles refl refl
perform-Effect (completes now execution_id) s =
    of_execution-Effect (completed_one now execution_id) execution_id s
      (λ e f. commit_success-Effect now execution_id s e f)
perform-Effect (breaks now execution_id error) s =
    of_execution-Effect (failed_one now execution_id error) execution_id s
      (λ e f. commit_failure-Effect now execution_id s e f error)
perform-Effect (cancels now execution_id) s =
    of_execution-Effect (cancelled_one now execution_id) execution_id s
      (λ e f. commit_cancelled-Effect now execution_id s e f)
perform-Effect (remembers now execution_id answer) s =
    of_execution-Effect (remembered_one now execution_id answer) execution_id s
      (λ e _. record_terminal_memory-Effect now e.action_request_id execution_id answer s)

-- From sound tables every history of transactions leads to sound ones: one row for each request and each
-- execution, at most one execution for each request, whose request is there and executes while it runs, is
-- completed when it completed, and failed when it failed or was cancelled.
pub history-Sound : (calls : List Call) (s : Store) → Sound s → Sound (history calls s)
unfolding history
history-Sound [] s sound = sound
history-Sound (call ∷ rest) s sound =
    history-Sound rest (perform call s) (Effect-Sound s _ sound (perform-Effect call s))

-- In every history from sound tables a request stays there, and goes by the steps of its life only, each
-- under the next version: it is asked for, approved or turned down, lapses, runs once, and ends.
pub history-Lives :
    (calls : List Call) (s : Store) (j : ℕ) (r : ActionRequest)
    → Sound s
    → find_request j s ≡ some r
    → (r' : ActionRequest) × (find_request j (history calls s) ≡ some r') × Lives r r'
unfolding history
history-Lives [] s j r sound f = (r, f, here)
history-Lives (call ∷ rest) s j r sound f =
    let effect = perform-Effect call s in
    let (r1, f1, m) = Effect-Moves s (perform call s) j r sound effect f in
    let (r2, f2, lives) =
      history-Lives rest (perform call s) j r1 (Effect-Sound s _ sound effect) f1 in
    (r2, f2, onward m lives)
