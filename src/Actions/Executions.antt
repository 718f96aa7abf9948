-- ===== src/Actions/Executions.antt =====
-- app/repositories/action_execution_repository.py. The clock is an argument.
use ai_game.Base.{
  not, ℕ, ◌+◌, Bool, ◌||◌, none, some, List, [], ◌∷◌, ◌==◌, any, is_some, ◌++◌, find,
}
use ai_game.Errors.{
  Error, Result, ok, ensure, ◌>>◌, persistence, action_execution_conflict, unexpected,
}
use ai_game.Constants.{ActionExecutionStatus, created, not_required, recorded, MemoryRecordStatus}
use ai_game.Actions.Policy.{ActionExecutionGuard}
use ai_game.Actions.Tables.{ActionExecution, execution_key}

-- The row of `create`.
unfoldable pub new_execution : (id request_id key : ℕ) → ActionExecutionGuard → ActionExecution
new_execution id request_id key guard = record {
  action_execution_id = id;
  action_request_id = request_id;
  status = created;
  idempotency_key = key;
  started_at = none;
  completed_at = none;
  error_code = none;
  reserved_campaign_status = guard.expected_campaign_status;
  reserved_campaign_version = guard.expected_campaign_version;
  reserved_workflow_status = guard.expected_workflow_status;
  reserved_revision_number = guard.expected_revision_number;
  memory_record_status = not_required;
  memory_record_attempts = 0;
  memory_record_error_code = none;
  memory_recorded_at = none;
}

abbrev pub same_request : ℕ → ActionExecution → Bool
same_request request_id execution = request_id == execution.action_request_id

abbrev pub same_execution_key : ℕ → ActionExecution → Bool
same_execution_key key execution = key == execution.idempotency_key

-- The insertion, under `uq_action_executions_one_per_request`, `uq_action_executions_idempotency_key` and
-- the primary key.
unfoldable pub insert_execution :
    ActionExecution → List ActionExecution → Result (List ActionExecution)
insert_execution execution table = do
  ensure
      (not (
        any (same_request execution.action_request_id) table
        || any (same_execution_key execution.idempotency_key) table))
      action_execution_conflict
  ensure (not (is_some (find execution_key execution.action_execution_id table))) persistence
  ok (table ++ execution ∷ [])

-- `find_by_idempotency_key`, of which the executor asks only whether it finds a row
unfoldable pub has_execution_key : ℕ → List ActionExecution → Bool
has_execution_key key = any (same_execution_key key)

-- `mark_running`
unfoldable pub mark_running : ℕ → ActionExecution → ActionExecution
mark_running now execution = record execution {
  status = ActionExecutionStatus.running;
  started_at = some now;
}

-- `mark_completed`
unfoldable pub mark_execution_completed : ℕ → ActionExecution → ActionExecution
mark_execution_completed now execution = record execution {
  status = ActionExecutionStatus.completed;
  completed_at = some now;
  memory_record_status = MemoryRecordStatus.pending;
}

-- `mark_failed`
unfoldable pub mark_execution_failed : ℕ → Error → ActionExecution → ActionExecution
mark_execution_failed now error_code execution = record execution {
  status = ActionExecutionStatus.failed;
  error_code = some error_code;
  completed_at = some now;
  memory_record_status = MemoryRecordStatus.pending;
}

-- `mark_cancelled`; the code ACTION_CANCELLED is no error class's, and is `unexpected`.
unfoldable pub mark_execution_cancelled : ℕ → ActionExecution → ActionExecution
mark_execution_cancelled now execution = record execution {
  status = ActionExecutionStatus.cancelled;
  error_code = some unexpected;
  completed_at = some now;
  memory_record_status = MemoryRecordStatus.pending;
}

-- `start_memory_record_attempt`
unfoldable pub start_memory_record_attempt : ActionExecution → ActionExecution
start_memory_record_attempt execution = record execution {
  memory_record_status = MemoryRecordStatus.pending;
  memory_record_attempts = execution.memory_record_attempts + 1;
  memory_record_error_code = none;
}

-- `mark_memory_recorded`
unfoldable pub mark_memory_recorded : ℕ → ActionExecution → ActionExecution
mark_memory_recorded now execution = record execution {
  memory_record_status = recorded;
  memory_recorded_at = some now;
  memory_record_error_code = none;
}

-- `mark_memory_record_failed`
unfoldable pub mark_memory_record_failed : Error → ActionExecution → ActionExecution
mark_memory_record_failed error_code execution = record execution {
  memory_record_status = MemoryRecordStatus.failed;
  memory_record_error_code = some error_code;
}
