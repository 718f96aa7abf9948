-- ===== src/Outbox/Dispatcher.antt =====
-- app/outbox/dispatcher.py: one event is leased, given to the consumer, and marked. The consumer works on the
-- database in its own session, whose changes are committed with the mark or not at all; it is an argument,
-- as is what other dispatchers do to the outbox in between.
use ai_game.Base.{ℕ, Bool, true, false, List, String, if◌then◌else◌}
use ai_game.Errors.{Error, Result, ok, err}
use ai_game.Constants.{LeaseUpdateResult, updated}
use ai_game.Outbox.Tables.{Event}
use ai_game.Outbox.Repository.{mark_processed, mark_failed, renew_lease, update_event}
use ai_game.Outbox.Calls.{Call, replay}

-- The settings `outbox_max_attempts`, `outbox_lease_seconds`, `outbox_retry_base_seconds` and
-- `outbox_retry_max_seconds`.
pub record OutboxSettings : Type 0 where
  pub max_attempts : ℕ
  pub lease_seconds : ℕ
  pub retry_base_seconds : ℕ
  pub retry_max_seconds : ℕ

-- What happens while one event is dispatched: the calls on the outbox while the consumer runs, the renewals
-- of the heartbeat among them, and those before the event is marked; whether the heartbeat lost the lease,
-- and then cancelled the consumer; and the times of the last calls.
pub record Dispatch : Type 0 where
  pub while_consuming : List (ℕ × Call)
  pub lost_by_heartbeat : Bool
  pub renewed_at : ℕ
  pub before_mark : List (ℕ × Call)
  pub marked_at : ℕ

abbrev pub is_updated : LeaseUpdateResult → Bool
is_updated updated = true
is_updated _ = false

module _ {ℓ} {World : Type ℓ} (settings : OutboxSettings) (worker_id : ℕ)
    (error_code : Error → String) (consumer : Event → World → Result World) where
  -- The mark at the end: with it the consumer's session is committed.
  unfoldable pub commit_processed : Event → ℕ → World → World → List Event → World × List Event
  commit_processed event now consumed world db =
      let (result, db') =
        update_event mark_processed now event.outbox_event_id worker_id event.lease_version db in
      if is_updated result then (consumed, db') else (world, db)

  -- `_record_failure`
  unfoldable pub record_failure : Event → ℕ → Error → List Event → List Event
  record_failure event now error db =
      let failure =
        mark_failed event.attempt_count event.max_attempts (error_code error)
          settings.retry_base_seconds settings.retry_max_seconds in
      (update_event failure now event.outbox_event_id worker_id event.lease_version db).1

  -- `_renew_once`, then the mark.
  unfoldable pub renew_and_commit :
      Dispatch → Event → World → World → List Event → World × List Event
  renew_and_commit d event consumed world db =
      let (result, db') =
        update_event (renew_lease settings.lease_seconds) d.renewed_at event.outbox_event_id
          worker_id event.lease_version db in
      if is_updated result
      then commit_processed event d.marked_at consumed world
          (replay settings.max_attempts d.before_mark db')
      else (world, db)

  -- `_dispatch_event`; `event` is the row as it was leased.
  unfoldable pub dispatch_event : Dispatch → Event → World → List Event → World × List Event
  dispatch_event d event world db =
      let db' = replay settings.max_attempts d.while_consuming db in
      if d.lost_by_heartbeat then (world, db') else (elim (consumer event world) [
        | err e ↦ (
          world,
          record_failure event d.marked_at e (replay settings.max_attempts d.before_mark db'),
        )
        | ok consumed ↦ renew_and_commit d event consumed world db'
      ])
