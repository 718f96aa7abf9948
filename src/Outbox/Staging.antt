-- ===== src/Outbox/Staging.antt =====
-- An event is staged once for each key.
use ai_game.Base.{ℕ, ◌≡◌, refl, none, some, List, [], ◌∷◌, ◌++◌, arith, ◌==◌, if◌then◌else◌}
use ai_game.Errors.{ok}
use ai_game.Outbox.Tables.{Event}
use ai_game.Outbox.Repository.{new_event, find_by_key, stage_event}

find_by_key-append :
    (key : ℕ) (a : Event) (t : List Event)
    → find_by_key key t ≡ none
    → find_by_key key (t ++ a ∷ []) ≡ (if key == a.idempotency_key then some a else none)
find_by_key-append key a [] h = refl
find_by_key-append key a (x ∷ t) h = ground (arith, find_by_key-append key a t)

-- An event that is staged again under its key, whatever identifier and time it is given, is the first one,
-- and the table stays as it is.
pub stage_event-idempotent :
    (max now now2 event_id event_id2 key : ℕ) (e : Event) (db db1 : List Event)
    → stage_event max now event_id key db ≡ ok (e, db1)
    → stage_event max now2 event_id2 key db1 ≡ ok (e, db1)
unfolding stage_event
stage_event-idempotent max now now2 event_id event_id2 key e db db1 h =
    ground (arith, h, find_by_key-append key (new_event now event_id key max) db)
