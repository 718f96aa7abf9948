-- ===== src/Outbox/Tokens.antt =====
-- What a dispatcher can do with the version of its lease, and when it can do nothing any more.
use ai_game.Base.{
  ℕ, ◌≡◌, ◌≢◌, refl, ap, ◌∙◌, Bool, true, false, not, ◌&&◌, ◌||◌, Option, none, some, List, arith,
  ◌==◌, ltb, if◌then◌else◌, Distinct, Option-cases, inl, inr, put,
}
use ai_game.Constants.{
  OutboxStatus, LeaseUpdateResult, updated, not_found, invalid_state, lease_lost,
}
use ai_game.Outbox.Tables.{Event, event_key, find_event, is_processing, is_ready}
use ai_game.Outbox.Repository.{
  Update, values, lease_condition, classify_lease_failure, update_leased, update_event,
}
use ai_game.Outbox.Moves.{Moves, stays, is_leased, is_renewed, is_released}
use ai_game.Outbox.Calls.{Call, replay, Lives, here, onward, replay-Lives}

-- A lease of a version holds for its worker, on an event under way, until it expires.
abbrev pub token_holds : OutboxStatus → Option ℕ → Option ℕ → ℕ → ℕ → ℕ → ℕ → Bool
token_holds OutboxStatus.processing (some holder) (some expires_at) current worker version now =
    (holder == worker) && ((current == version) && ltb now expires_at)
token_holds _ _ _ current worker version now = false

condition-holds :
    (worker version now : ℕ) (e : Event)
    → lease_condition worker version now e
      ≡ token_holds e.status e.locked_by e.lease_expires_at e.lease_version worker version now
unfolding lease_condition
condition-holds worker version now e = ground arith

-- The answer to an update, by the row that it names.
abbrev pub answer : Update → ℕ → ℕ → ℕ → List Event → Option Event → LeaseUpdateResult × List Event
answer u now worker version db none = (not_found, db)
answer u now worker version db (some e) =
    if token_holds e.status e.locked_by e.lease_expires_at e.lease_version worker version now
    then (updated, put event_key (values u now e) db)
    else (if is_processing e.status then lease_lost else invalid_state, db)

pub update_found :
    (u : Update) (now i worker version : ℕ) (db : List Event) (e : Event)
    → find_event i db ≡ some e
    → update_event u now i worker version db ≡ (
        if lease_condition worker version now e
        then (updated, put event_key (values u now e) db)
        else (if is_processing e.status then lease_lost else invalid_state, db))
unfolding update_event update_leased classify_lease_failure
update_found u now i worker version db e f = ground (arith, f)

pub update_missing :
    (u : Update) (now i worker version : ℕ) (db : List Event)
    → find_event i db ≡ none
    → update_event u now i worker version db ≡ (not_found, db)
unfolding update_event update_leased classify_lease_failure
update_missing u now i worker version db f = ground (arith, f)

-- `mark_processed`, `mark_failed` and `renew_lease` write the event exactly for the worker that holds its
-- lease under the current version and before it expires. Any other caller changes nothing and is told
-- why: no such event, an event that is not under way, or one under another lease.
pub update_event-answer :
    (u : Update) (now i worker version : ℕ) (db : List Event)
    → update_event u now i worker version db ≡ answer u now worker version db (find_event i db)
update_event-answer u now i worker version db = elim (Option-cases (find_event i db)) [
  | inl f ↦ rw (update_missing u now i worker version db f, f) refl
  | inr (e, f) ↦
      rw (update_found u now i worker version db e f, f, condition-holds worker version now e) refl
]

-- A version whose lease is over: a later one was given, or the event is not under way.
abbrev pub is_over : ℕ → Event → Bool
is_over version e =
    ltb version e.lease_version || ((version == e.lease_version) && not (is_processing e.status))

over-Moves :
    (version : ℕ) (e e' : Event) → Moves e e' → is_over version e ≡ true → is_over version e' ≡ true
over-Moves version e e' (stays q) h = rw q h
over-Moves version e e' (is_leased r p v) h = ground (arith, r, p, v, h)
over-Moves version e e' (is_renewed r p v) h = ground (arith, r, p, v, h)
over-Moves version e e' (is_released r p v) h = ground (arith, r, p, v, h)

over-Lives :
    (version : ℕ) {e e' : Event} → Lives e e' → is_over version e ≡ true → is_over version e' ≡ true
over-Lives version here h = h
over-Lives version (onward m l) h = over-Lives version l (over-Moves version _ _ m h)

over_refused :
    (u : Update) (now i worker version : ℕ) (db : List Event) (e : Event)
    → find_event i db ≡ some e
    → is_over version e ≡ true
    → ((update_event u now i worker version db).0 ≢ updated)
      × ((update_event u now i worker version db).1 ≡ db)
unfolding lease_condition
over_refused u now i worker version db e f h =
    ground (arith, update_found u now i worker version db e f, h)

-- Once the lease of a version is over, it is over for good, in tables with one row per identifier: whatever
-- happens to the outbox afterwards, no worker writes the event under that version again, at any time and
-- on whatever clock.
pub stale_version-refused :
    (max : ℕ) (calls : List (ℕ × Call)) (i version : ℕ) (e : Event) (db : List Event)
    → Distinct event_key db
    → find_event i db ≡ some e
    → is_over version e ≡ true
    → (u : Update) (now worker : ℕ)
    → ((update_event u now i worker version (replay max calls db)).0 ≢ updated)
      × ((update_event u now i worker version (replay max calls db)).1 ≡ replay max calls db)
stale_version-refused max calls i version e db d f h u now worker =
    let (e', f', l) = replay-Lives max calls i e db d f in
    over_refused u now i worker version (replay max calls db) e' f' (over-Lives version l h)

-- An event in which no move starts.
settled-Moves :
    (e e' : Event)
    → Moves e e'
    → is_ready e.status ≡ false
    → is_processing e.status ≡ false
    → e' ≡ e
settled-Moves e e' (stays q) r p = q
settled-Moves e e' (is_leased a b c) r p = absurd (ground (arith, a, r))
settled-Moves e e' (is_renewed a b c) r p = absurd (ground (arith, a, p))
settled-Moves e e' (is_released a b c) r p = absurd (ground (arith, a, p))

settled-Lives :
    {e e' : Event}
    → Lives e e'
    → is_ready e.status ≡ false
    → is_processing e.status ≡ false
    → e' ≡ e
settled-Lives here r p = refl
settled-Lives (onward m l) r p =
    let same = settled-Moves _ _ m r p in settled-Lives l (rw same r) (rw same p) ∙ same

-- An event that is neither ready nor under way, being processed or dead, stays as it is in every history of
-- tables with one row per identifier.
pub settled_event-stays :
    (max : ℕ) (calls : List (ℕ × Call)) (i : ℕ) (e : Event) (db : List Event)
    → Distinct event_key db
    → find_event i db ≡ some e
    → is_ready e.status ≡ false
    → is_processing e.status ≡ false
    → find_event i (replay max calls db) ≡ some e
settled_event-stays max calls i e db d f r p =
    let (e', f', l) = replay-Lives max calls i e db d f in rw f' (ap some (settled-Lives l r p))
