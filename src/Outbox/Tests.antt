-- ===== src/Outbox/Tests.antt =====
-- The outbox on concrete tables.
use ai_game.Base.{ℕ, ◌+◌, arith, String, List, ◌≡◌, ◌≢◌, refl, Bool, false, some, [], ◌∷◌}
use ai_game.Errors.{Error, Result, ok}
use ai_game.Constants.{updated}
use ai_game.Outbox.Tables.{Event, find_event}
use ai_game.Outbox.Repository.{
  new_event, stage_event, mark_processed, update_event, leased_event, processed_event,
  reconciled_event, update_leased, lease_condition,
}
use ai_game.Outbox.Calls.{leasing, updating, reconciling, replay, Lives, replay-Lives}
use ai_game.Outbox.Tokens.{answer, update_event-answer, stale_version-refused, settled_event-stays}
use ai_game.Outbox.Dispatcher.{
  OutboxSettings, Dispatch, dispatch_event, renew_and_commit, commit_processed,
}
use ai_game.Outbox.Once.{dispatch_event-once}

abbrev unheld : ℕ → Bool
unheld i = false

abbrev fresh : Event
fresh = new_event 10 1 77 5

-- Worker 9 holds the first lease, for a minute.
abbrev leased : Event
leased = leased_event 9 60 20 fresh

-- The lease has expired, and the event waits for another worker.
abbrev taken_back : Event
taken_back = reconciled_event 70000000 leased

abbrev processed : Event
processed = processed_event 30 leased

replay-Lives_example :
    (e' : Event) × (find_event 1 (
        replay 5
          ((20, leasing unheld 9 1 60) ∷ (30, updating mark_processed 1 9 1) ∷ [])
          (fresh ∷ []))
      ≡ some e')
    × Lives fresh e'
replay-Lives_example =
    replay-Lives 5 ((20, leasing unheld 9 1 60) ∷ (30, updating mark_processed 1 9 1) ∷ []) 1 fresh
      (fresh ∷ []) (tt, tt) refl

update_event-answer_example :
    update_event mark_processed 30 1 9 1 (leased ∷ [])
    ≡ answer mark_processed 30 9 1 (leased ∷ []) (find_event 1 (leased ∷ []))
update_event-answer_example = update_event-answer mark_processed 30 1 9 1 (leased ∷ [])

stale_version-refused_example :
    ((update_event mark_processed 80000001 1 9 1
        (replay 5 ((80000000, leasing unheld 8 1 60) ∷ []) (taken_back ∷ []))).0
      ≢ updated)
    × ((update_event mark_processed 80000001 1 9 1
          (replay 5 ((80000000, leasing unheld 8 1 60) ∷ []) (taken_back ∷ []))).1
        ≡ replay 5 ((80000000, leasing unheld 8 1 60) ∷ []) (taken_back ∷ []))
stale_version-refused_example =
    stale_version-refused 5 ((80000000, leasing unheld 8 1 60) ∷ []) 1 1 taken_back
      (taken_back ∷ []) (tt, tt) refl refl mark_processed 80000001 9

settled_event-stays_example :
    find_event 1 (
      replay 5
        ((80000000, leasing unheld 8 1 60) ∷ (90000000, reconciling unheld 10) ∷ [])
        (processed ∷ []))
    ≡ some processed
settled_event-stays_example =
    settled_event-stays 5
      ((80000000, leasing unheld 8 1 60) ∷ (90000000, reconciling unheld 10) ∷ []) 1 processed
      (processed ∷ []) (tt, tt) refl refl refl

staged_once : stage_event 5 10 1 77 [] ≡ ok (fresh, fresh ∷ [])
unfolding stage_event
staged_once = refl

abbrev settings : OutboxSettings
settings = record {
  max_attempts = 5;
  lease_seconds = 60;
  retry_base_seconds = 2;
  retry_max_seconds = 300;
}

abbrev dispatch : ℕ → Dispatch
dispatch now = record {
  while_consuming = [];
  lost_by_heartbeat = false;
  renewed_at = now;
  before_mark = [];
  marked_at = now + 1;
}

-- A consumer that counts, and the event leased a second time by another worker.
abbrev count : Event → ℕ → Result ℕ
count event n = ok (n + 1)

abbrev code : Error → String
code e = "ERROR"

abbrev counted : ℕ × List Event
counted = dispatch_event settings 9 code count (dispatch 30) leased 0 (leased ∷ [])

counted_one : counted.0 ≡ 1
unfolding dispatch_event renew_and_commit update_event update_leased lease_condition
    commit_processed replay
counted_one = refl

dispatch_event-once_example :
    (dispatch_event settings 8 code count (dispatch 90) leased 1 (
      replay 5
        ((80, leasing unheld 8 1 60) ∷ [])
        (dispatch_event settings 9 code count (dispatch 30) leased 0 (leased ∷ [])).1)).0
    ≡ 1
dispatch_event-once_example =
    dispatch_event-once settings 9 8 code count count (dispatch 30) (dispatch 90) leased leased 0 1
      ((80, leasing unheld 8 1 60) ∷ []) (leased ∷ []) (tt, tt) (ground (arith, counted_one)) refl
