-- ===== src/Outbox/Repository.antt =====
-- app/repositories/outbox_repository.py. The clock is an argument; so is, for the two operations that use
-- `skip_locked`, which rows other transactions hold.
use ai_game.Base.{
  ℕ, ◌+◌, String, Bool, not, ◌&&◌, ◌||◌, Option, none, some, List, [], ◌∷◌, ◌++◌, ◌==◌, ltb, leb,
  if◌then◌else◌, put, select_rows, is_some,
}
use ai_game.Errors.{Result, ok, err, persistence}
use ai_game.Constants.{
  OutboxStatus, LeaseUpdateResult, updated, not_found, invalid_state, lease_lost,
}
use ai_game.Jobs.Retry.{retry_delay_seconds}
use ai_game.Jobs.Tables.{seconds}
use ai_game.Jobs.Leases.{is_worker, is_later}
use ai_game.Jobs.Finish.{has_expired}
use ai_game.Outbox.Tables.{Event, event_key, find_event, is_processing, is_ready}

-- The row that `create` adds.
abbrev pub new_event : ℕ → ℕ → ℕ → ℕ → Event
new_event now event_id idempotency_key max_attempts = record {
  outbox_event_id = event_id;
  status = OutboxStatus.pending;
  attempt_count = 0;
  max_attempts = max_attempts;
  available_at = now;
  locked_by = none;
  locked_at = none;
  lease_expires_at = none;
  last_heartbeat_at = none;
  lease_version = 0;
  processed_at = none;
  idempotency_key = idempotency_key;
  created_at = now;
  error_code = none;
}

-- `find_by_key`
abbrev pub find_by_key : ℕ → List Event → Option Event
find_by_key key [] = none
find_by_key key (event ∷ rest) =
    if key == event.idempotency_key then some event else find_by_key key rest

-- app/outbox/service.py, `add_event`, with the key that is given or hashed: an event whose key is there
-- already is returned as it is.
unfoldable pub stage_event : ℕ → ℕ → ℕ → ℕ → List Event → Result (Event × List Event)
stage_event outbox_max_attempts now event_id key db = elim (find_by_key key db) [
  | some existing ↦ ok (existing, db)
  | none ↦
      let event = new_event now event_id key outbox_max_attempts in
      if is_some (find_event event_id db) then err persistence else ok (event, db ++ event ∷ [])
]

-- `_lease_condition`, on the row that the identifier selects.
unfoldable pub lease_condition : ℕ → ℕ → ℕ → Event → Bool
lease_condition worker_id lease_version now event =
    is_processing event.status
    && (is_worker worker_id event.locked_by
        && ((event.lease_version == lease_version) && is_later now event.lease_expires_at))

-- `_classify_lease_failure`
unfoldable pub classify_lease_failure : ℕ → List Event → LeaseUpdateResult
classify_lease_failure event_id db = elim (find_event event_id db) [
  | none ↦ not_found
  | some event ↦ if is_processing event.status then lease_lost else invalid_state
]

-- `UPDATE … WHERE _lease_condition RETURNING id`, and the classification when no row was updated.
unfoldable pub update_leased :
    (Event → Event) → ℕ → ℕ → ℕ → ℕ → List Event → LeaseUpdateResult × List Event
unfolding lease_condition
update_leased change now event_id worker_id lease_version db = elim (find_event event_id db) [
  | none ↦ (classify_lease_failure event_id db, db)
  | some event ↦
      if lease_condition worker_id lease_version now event
      then (updated, put event_key (change event) db)
      else (classify_lease_failure event_id db, db)
]

abbrev pub unleased : Event → Event
unleased event = record event {
  locked_by = none;
  locked_at = none;
  lease_expires_at = none;
  last_heartbeat_at = none;
}

abbrev pub processed_event : ℕ → Event → Event
processed_event now event =
    unleased
      (record event { status = OutboxStatus.processed; processed_at = some now; error_code = none })

abbrev pub failed_event : ℕ → ℕ → ℕ → String → ℕ → ℕ → Event → Event
failed_event now attempt_count max_attempts error_code retry_base_seconds retry_max_seconds event =
    unleased (record event {
      status =
          if leb max_attempts attempt_count then OutboxStatus.dead_letter else OutboxStatus.failed;
      available_at =
          now + seconds (retry_delay_seconds attempt_count retry_base_seconds retry_max_seconds);
      error_code = some error_code;
    })

abbrev pub renewed_event : ℕ → ℕ → Event → Event
renewed_event now lease_seconds event = record event {
  last_heartbeat_at = some now;
  lease_expires_at = some (now + seconds lease_seconds);
}

-- How a dispatcher updates the event that it has leased: `mark_processed`, `mark_failed`, `renew_lease`.
pub data Update : Type 0 where
  mark_processed : Update
  mark_failed :
      (attempt_count max_attempts : ℕ) (error_code : String)
      (retry_base_seconds retry_max_seconds : ℕ)
      → Update
  renew_lease : (lease_seconds : ℕ) → Update

-- The `values` of each.
abbrev pub values : Update → ℕ → Event → Event
values mark_processed now event = processed_event now event
values (mark_failed attempts max code base top) now event =
    failed_event now attempts max code base top event
values (renew_lease lease_seconds) now event = renewed_event now lease_seconds event

unfoldable pub update_event : Update → ℕ → ℕ → ℕ → ℕ → List Event → LeaseUpdateResult × List Event
unfolding update_leased
update_event update now event_id worker_id lease_version db =
    update_leased (values update now) now event_id worker_id lease_version db

-- The `WHERE` and `ORDER BY` clauses of `lease_batch`.
unfoldable pub is_available : ℕ → (ℕ → Bool) → Event → Bool
is_available now held event =
    is_ready event.status && (leb event.available_at now && not (held event.outbox_event_id))

unfoldable pub available_before : Event → Event → Bool
available_before a b =
    ltb a.available_at b.available_at
    || ((a.available_at == b.available_at) && leb a.created_at b.created_at)

abbrev pub leased_event : ℕ → ℕ → ℕ → Event → Event
leased_event worker_id lease_seconds now event = record event {
  status = OutboxStatus.processing;
  locked_by = some worker_id;
  locked_at = some now;
  last_heartbeat_at = some now;
  lease_expires_at = some (now + seconds lease_seconds);
  lease_version = event.lease_version + 1;
  attempt_count = event.attempt_count + 1;
}

-- The flush of a loop that changes each of the selected rows.
unfoldable pub put_each : (Event → Event) → List Event → List Event → List Event
put_each change [] db = db
put_each change (event ∷ rest) db = put_each change rest (put event_key (change event) db)

unfoldable pub lease_batch : ℕ → (ℕ → Bool) → ℕ → ℕ → ℕ → List Event → List Event
unfolding is_available available_before put_each
lease_batch now held worker_id limit lease_seconds db =
    put_each (leased_event worker_id lease_seconds now)
      (select_rows available_before (is_available now held) limit db) db

-- The `WHERE` and `ORDER BY` clauses of `reconcile_stale`, whose readings of the clock are one here.
unfoldable pub is_overdue : ℕ → (ℕ → Bool) → Event → Bool
is_overdue now held event =
    is_processing event.status
    && (has_expired now event.lease_expires_at && not (held event.outbox_event_id))

abbrev lock_time : Option ℕ → ℕ
lock_time none = 0
lock_time (some t) = t

unfoldable pub locked_before : Event → Event → Bool
locked_before a b =
    ltb (lock_time a.locked_at) (lock_time b.locked_at)
    || ((lock_time a.locked_at == lock_time b.locked_at) && leb a.outbox_event_id b.outbox_event_id)

abbrev pub reconciled_event : ℕ → Event → Event
reconciled_event now event = unleased (record event {
  status =
      if leb event.max_attempts event.attempt_count
      then OutboxStatus.dead_letter
      else OutboxStatus.failed;
  available_at = now;
  error_code = some "OUTBOX_LEASE_EXPIRED";
})

unfoldable pub reconcile_stale : ℕ → (ℕ → Bool) → ℕ → List Event → List Event
unfolding is_overdue locked_before put_each
reconcile_stale now held limit db =
    put_each (reconciled_event now) (select_rows locked_before (is_overdue now held) limit db) db
