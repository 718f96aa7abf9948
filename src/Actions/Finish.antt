-- ===== src/Actions/Finish.antt =====
-- app/agentic/actions/executor.py: the end of an execution, and the record of it in the memory log.
use ai_game.Base.{ℕ, Bool, true, false, Option, none, some, List, ◌==◌, if◌then◌else◌}
use ai_game.Errors.{
  Error, Result, ok, err, ensure, required, ◌>>=◌, ◌>>◌, Tx, transact, action_request_not_found,
  action_execution_conflict, action_scope_conflict, controlled_action_execution, unexpected, dbapi,
  operational,
}
use ai_game.Constants.{ActionExecutionStatus, MemoryRecordStatus, recorded}
use ai_game.Actions.Policy.{ActionDefinition, ActionInput}
use ai_game.Actions.Tables.{
  ActionRequest, ActionExecution, action_completed, action_failed, memory_reconciliation_required,
  Store, find_request, find_execution, save_request, save_execution, stage_action_event,
}
use ai_game.Actions.Requests.{mark_request_completed, mark_request_failed}
use ai_game.Actions.Executions.{
  mark_execution_completed, mark_execution_failed, mark_execution_cancelled,
  start_memory_record_attempt, mark_memory_recorded, mark_memory_record_failed,
}
use ai_game.Actions.Reserve.{Reservation, reserve}

abbrev pub is_running : ActionExecutionStatus → Bool
is_running ActionExecutionStatus.running = true
is_running _ = false

-- `_required_request`, then `_required_execution`
unfoldable pub required_pair :
    (request_id execution_id : ℕ) → Store → Result (ActionRequest × ActionExecution)
required_pair request_id execution_id store = do
  request ← required (find_request request_id store) action_request_not_found
  execution ← required (find_execution execution_id store) action_execution_conflict
  ensure (is_running execution.status) action_execution_conflict
  ok (request, execution)

-- An exception that is no `ApplicationError`.
abbrev pub is_foreign : Error → Bool
is_foreign unexpected = true
is_foreign operational = true
is_foreign (dbapi b) = true
is_foreign _ = false

-- The transactions of `_finalize_success`, `_finalize_failure` and `_finalize_cancelled`.
unfoldable pub commit_success : (now request_id execution_id : ℕ) → Tx Store (Unit {0})
unfolding required_pair
commit_success now request_id execution_id store = do
  (request, execution) ← required_pair request_id execution_id store
  let marked =
      save_request (mark_request_completed request)
        (save_execution (mark_execution_completed now execution) store)
  ok (
    tt,
    stage_action_event
        (action_completed execution.action_execution_id request.action_request_id
          request.action_name)
        marked,
  )

unfoldable pub commit_failure : (now request_id execution_id : ℕ) → Error → Tx Store (Unit {0})
unfolding required_pair
commit_failure now request_id execution_id error store = do
  (request, execution) ← required_pair request_id execution_id store
  let marked =
      save_request (mark_request_failed request)
        (save_execution (mark_execution_failed now error execution) store)
  ok (
    tt,
    stage_action_event
        (action_failed execution.action_execution_id request.action_request_id request.action_name
          error)
        marked,
  )

unfoldable pub commit_cancelled : (now request_id execution_id : ℕ) → Tx Store (Unit {0})
unfolding required_pair
commit_cancelled now request_id execution_id store = do
  (request, execution) ← required_pair request_id execution_id store
  ok (
    tt,
    save_request (mark_request_failed request)
        (save_execution (mark_execution_cancelled now execution) store),
  )

abbrev pub is_recorded : MemoryRecordStatus → Bool
is_recorded recorded = true
is_recorded _ = false

-- The rows that `_record_terminal_memory` reads.
unfoldable pub memory_scope : (request_id execution_id : ℕ) → Store → Result ActionExecution
memory_scope request_id execution_id store = do
  current ← required (find_execution execution_id store) action_execution_conflict
  request ← required (find_request request_id store) action_scope_conflict
  ensure (current.action_request_id == request.action_request_id) action_scope_conflict
  ok current

-- The end of an attempt to record: `answer` is that of the memory log.
unfoldable pub record_answer :
    (now request_id execution_id : ℕ) → Result (Unit {0}) → ActionExecution → Store → Store
record_answer now request_id execution_id (ok done) execution store =
    save_execution (mark_memory_recorded now execution) store
record_answer now request_id execution_id (err e) execution store =
    stage_action_event (memory_reconciliation_required execution_id request_id e)
      (save_execution (mark_memory_record_failed e execution) store)

-- `_record_terminal_memory`. Between its transactions only the memory log is written.
unfoldable pub record_terminal_memory :
    (now request_id execution_id : ℕ) → Result (Unit {0}) → Store → Result (Unit {0}) × Store
unfolding memory_scope record_answer
record_terminal_memory now request_id execution_id answer store =
    elim (memory_scope request_id execution_id store) [
      | err e ↦ (err e, store)
      | ok current ↦
          if is_recorded current.memory_record_status
          then (ok tt, store)
          else (let attempt = start_memory_record_attempt current in
              (
                ok tt,
                record_answer now request_id execution_id answer attempt
                    (save_execution attempt store),
              ))
    ]

-- A transaction that ends the execution, and the record of it.
abbrev and_record :
    (now request_id execution_id : ℕ)
    → Result (Unit {0})
    → Result (Unit {0}) × Store
    → Result (Unit {0}) × Store
and_record now request_id execution_id answer (ok done, store) =
    record_terminal_memory now request_id execution_id answer store
and_record now request_id execution_id answer (err e, store) = (err e, store)

-- `_finalize_success`
unfoldable pub finalize_success :
    (now request_id execution_id : ℕ) → Result (Unit {0}) → Store → Result (Unit {0}) × Store
unfolding commit_success record_terminal_memory
finalize_success now request_id execution_id answer store =
    and_record now request_id execution_id answer
      (transact (commit_success now request_id execution_id) store)

-- `_finalize_failure`
unfoldable pub finalize_failure :
    (now request_id execution_id : ℕ)
    → Error
    → Result (Unit {0})
    → Store
    → Result (Unit {0}) × Store
unfolding commit_failure record_terminal_memory
finalize_failure now request_id execution_id error answer store =
    and_record now request_id execution_id answer
      (transact (commit_failure now request_id execution_id error) store)

-- `_finalize_cancelled`
unfoldable pub finalize_cancelled :
    (now request_id execution_id : ℕ) → Result (Unit {0}) → Store → Result (Unit {0}) × Store
unfolding commit_cancelled record_terminal_memory
finalize_cancelled now request_id execution_id answer store =
    and_record now request_id execution_id answer
      (transact (commit_cancelled now request_id execution_id) store)

-- How the handler's run ends: by itself, by the timeout, or by the cancellation of the task; the flag says
-- whether the handler had committed before.
pub data Course : Type 0 where
  runs : Course
  times_out : (had_committed : Bool) → Course
  is_cancelled : (had_committed : Bool) → Course

-- An exception after a step, unless the step raises its own.
abbrev raising : Error → Result (Unit {0}) × Store → Result (Unit {0}) × Store
raising raised (ok done, store) = (err raised, store)
raising raised (err e, store) = (err e, store)

-- The failure of an execution is finalised, and its error raised.
unfoldable pub raise_after_failure :
    (now request_id execution_id : ℕ)
    → (error raised : Error) → Result (Unit {0})
    → Store
    → Result (Unit {0}) × Store
unfolding finalize_failure
raise_after_failure now request_id execution_id error raised answer store =
    raising raised (finalize_failure now request_id execution_id error answer store)

-- `except Exception`: an exception that is no `ApplicationError` is wrapped.
abbrev wrapped : Error → Error
wrapped e = if is_foreign e then controlled_action_execution else e

abbrev except_failure :
    (now request_id execution_id : ℕ)
    → Result (Unit {0})
    → Result (Unit {0}) × Store
    → Result (Unit {0}) × Store
unfolding raise_after_failure
except_failure now request_id execution_id answer (ok done, store) = (ok done, store)
except_failure now request_id execution_id answer (err e, store) =
    raise_after_failure now request_id execution_id (wrapped e) (wrapped e) answer store

-- `return await self._finalize_success(…)`, inside the `try`
unfoldable pub succeed :
    (now request_id execution_id : ℕ) → Result (Unit {0}) → Store → Result (Unit {0}) × Store
unfolding finalize_success except_failure
succeed now request_id execution_id answer store =
    except_failure now request_id execution_id answer
      (finalize_success now request_id execution_id answer store)

abbrev with_rows : Bool → Store → Store → Store
with_rows true after before = after
with_rows false after before = before

unfoldable pub run_handler :
    (now : ℕ)
    → Course
    → Result (Unit {0})
    → ActionInput
    → Reservation
    → Store
    → Result (Unit {0}) × Store
unfolding succeed finalize_cancelled raise_after_failure
run_handler now course answer input reservation store =
    let request_id = reservation.request.action_request_id in
    let execution_id = reservation.execution.action_execution_id in
    let (outcome, rows) = reservation.definition.handler input reservation.guard store.rows in
    let after = record store { rows = rows } in
    elim course [
      | times_out had_committed ↦
          raise_after_failure now request_id execution_id controlled_action_execution
            controlled_action_execution answer (with_rows had_committed after store)
      | is_cancelled had_committed ↦ raising unexpected (
          finalize_cancelled now request_id execution_id answer
            (with_rows had_committed after store))
      | runs ↦ (elim outcome [
        | ok done ↦ succeed now request_id execution_id answer after
        | err e ↦
            raise_after_failure now request_id execution_id (wrapped e) (wrapped e) answer after
      ])
    ]

-- The part of `_execute` after the reservation. A `ValidationError` is no `ApplicationError`.
unfoldable pub run_reserved :
    (now : ℕ) → Course → Result (Unit {0}) → Reservation → Store → Result (Unit {0}) × Store
unfolding run_handler
run_reserved now course answer reservation store =
    elim (reservation.definition.model_validate reservation.request.arguments) [
      | none ↦
          raise_after_failure now reservation.request.action_request_id
            reservation.execution.action_execution_id unexpected controlled_action_execution answer
            store
      | some input ↦ run_handler now course answer input reservation store
    ]

abbrev reserved_run :
    (now : ℕ) → Course → Result (Unit {0}) → Result Reservation × Store → Result (Unit {0}) × Store
unfolding run_reserved
reserved_run now course answer (err e, store) = (err e, store)
reserved_run now course answer (ok reservation, store) =
    run_reserved now course answer reservation store

-- `_execute`. `course` is how the handler's run ends, and `answer` that of the memory log.
unfoldable pub execute_action :
    (ttl now execution_id : ℕ)
    → List ActionDefinition
    → Course
    → Result (Unit {0})
    → ℕ
    → Option ℕ
    → Store
    → Result (Unit {0}) × Store
unfolding reserve reserved_run
execute_action ttl now execution_id registry course answer action_request_id expected_version
      store =
    reserved_run now course answer
      (reserve ttl now execution_id registry action_request_id expected_version store)
