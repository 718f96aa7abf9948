-- ===== src/Outbox/Tables.antt =====
-- The table of the outbox (app/database/models.py). Identifiers, worker names and keys are numbers, as they
-- are only compared; a time is a number of microseconds. The payload, the tracing columns and message texts
-- are left out.
use ai_game.Base.{ℕ, String, Bool, true, false, Option, List, find}
use ai_game.Constants.{OutboxStatus}

-- `OutboxEventModel`
pub record Event : Type 0 where
  pub outbox_event_id : ℕ
  pub status : OutboxStatus
  pub attempt_count : ℕ
  pub max_attempts : ℕ
  pub available_at : ℕ
  pub locked_by : Option ℕ
  pub locked_at : Option ℕ
  pub lease_expires_at : Option ℕ
  pub last_heartbeat_at : Option ℕ
  pub lease_version : ℕ
  pub processed_at : Option ℕ
  pub idempotency_key : ℕ
  pub created_at : ℕ
  pub error_code : Option String

abbrev pub event_key : Event → ℕ
event_key event = event.outbox_event_id

abbrev pub find_event : ℕ → List Event → Option Event
find_event = find event_key

abbrev pub is_processing : OutboxStatus → Bool
is_processing OutboxStatus.processing = true
is_processing _ = false

-- The states from which `lease_batch` takes an event.
abbrev pub is_ready : OutboxStatus → Bool
is_ready OutboxStatus.pending = true
is_ready OutboxStatus.failed = true
is_ready _ = false
