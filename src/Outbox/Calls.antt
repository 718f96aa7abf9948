-- ===== src/Outbox/Calls.antt =====
-- Histories of the outbox: every event lives by the moves.
use ai_game.Base.{
  ℕ, ◌≡◌, refl, ap, ◌∙◌, Bool, true, none, some, List, [], ◌∷◌, arith, if◌then◌else◌, All-select,
  select-All, select_rows, Distinct, Distinct-put, Distinct-select, append-Distinct, rows-Found,
  key-find, find-append_old, Bool-cases, Option-cases, inl, inr, put,
}
use ai_game.Errors.{Result, ok, err}
use ai_game.Outbox.Tables.{Event, event_key, find_event}
use ai_game.Outbox.Repository.{
  stage_event, new_event, find_by_key, lease_condition, update_leased, values, Update,
  mark_processed, mark_failed, renew_lease, update_event, is_available, available_before,
  leased_event, lease_batch, is_overdue, locked_before, reconciled_event, reconcile_stale,
}
use ai_game.Outbox.Moves.{
  Moves, stays, MovesAt, update-Moves, lease-Moves, reconcile-Moves, put-Moves, put_each-MovesAt,
  put_each-Distinct,
}

pub data Call : Type 0 where
  staging : (event_id key : ℕ) → Call
  leasing : (held : ℕ → Bool) (worker limit lease_seconds : ℕ) → Call
  updating : Update → (event_id worker version : ℕ) → Call
  reconciling : (held : ℕ → Bool) (limit : ℕ) → Call

abbrev pub staged : List Event → Result (Event × List Event) → List Event
staged db (ok (e, db')) = db'
staged db (err x) = db

unfoldable pub perform : ℕ → ℕ → Call → List Event → List Event
perform max now (staging event_id key) db = staged db (stage_event max now event_id key db)
perform max now (leasing held worker limit lease_seconds) db =
    lease_batch now held worker limit lease_seconds db
perform max now (updating update event_id worker version) db =
    (update_event update now event_id worker version db).1
perform max now (reconciling held limit) db = reconcile_stale now held limit db

-- A history, under the setting `outbox_max_attempts`: the calls with their times, the first call first.
unfoldable pub replay : ℕ → List (ℕ × Call) → List Event → List Event
replay max [] db = db
replay max ((now, call) ∷ rest) db = replay max rest (perform max now call db)

value_key :
    (u : Update) (now : ℕ) (e : Event) → (values u now e).outbox_event_id ≡ e.outbox_event_id
value_key mark_processed now e = refl
value_key (renew_lease s) now e = refl
value_key (mark_failed a m c b t) now e = refl

-- `update_event` on each of its branches.
update_other :
    (u : Update) (now i worker version : ℕ) (db : List Event)
    → find_event i db ≡ none
    → (update_event u now i worker version db).1 ≡ db
unfolding update_event update_leased
update_other u now i worker version db f = ground (arith, f)

update_row :
    (u : Update) (now i worker version : ℕ) (db : List Event) (a : Event)
    → find_event i db ≡ some a
    → (update_event u now i worker version db).1
      ≡ (if lease_condition worker version now a then put event_key (values u now a) db else db)
unfolding update_event update_leased
update_row u now i worker version db a f = ground (arith, f)

found_self :
    (i : ℕ) (a : Event) (db : List Event)
    → find_event i db ≡ some a
    → find_event a.outbox_event_id db ≡ some a
found_self i a db f = ap (λ x. find_event x db) (key-find event_key i db a f) ∙ f

module _ (max now : ℕ) (db : List Event) (d : Distinct event_key db) where
  update-MovesAt :
      (u : Update) (i worker version j : ℕ) (e : Event)
      → find_event j db ≡ some e
      → MovesAt j e (update_event u now i worker version db).1
  update-MovesAt u i worker version j e f = elim (Option-cases (find_event i db)) [
    | inl g ↦ rw (update_other u now i worker version db g) (e, f, stays refl)
    | inr (a, g) ↦ elim (Bool-cases (lease_condition worker version now a)) [
      | inl h ↦
          rw (update_row u now i worker version db a g, h)
            (put-Moves j e a (values u now a) db f (found_self i a db g) (value_key u now a)
              (update-Moves u now worker version a h))
      | inr h ↦ rw (update_row u now i worker version db a g, h) (e, f, stays refl)
    ]
  ]

  stage-MovesAt :
      (event_id key j : ℕ) (e : Event)
      → find_event j db ≡ some e
      → MovesAt j e (staged db (stage_event max now event_id key db))
  unfolding stage_event
  stage-MovesAt event_id key j e f = (
    e,
    ground (arith, f, find-append_old event_key j (new_event now event_id key max) db e f),
    stays refl,
  )

  perform-MovesAt :
      (call : Call) (j : ℕ) (e : Event)
      → find_event j db ≡ some e
      → MovesAt j e (perform max now call db)
  unfolding perform lease_batch reconcile_stale
  perform-MovesAt (staging event_id key) j e f = stage-MovesAt event_id key j e f
  perform-MovesAt (updating u i worker version) j e f = update-MovesAt u i worker version j e f
  perform-MovesAt (leasing held worker limit lease_seconds) j e f =
      put_each-MovesAt (leased_event worker lease_seconds now) (λ x. is_available now held x ≡ true)
        (λ x. refl) (lease-Moves now held worker lease_seconds)
        (select_rows available_before (is_available now held) limit db) j e db f
        (Distinct-select event_key available_before (is_available now held) limit db d)
        (All-select available_before _ (is_available now held) limit db (rows-Found event_key db d))
        (select-All available_before (is_available now held) limit db)
  perform-MovesAt (reconciling held limit) j e f =
      put_each-MovesAt (reconciled_event now) (λ x. is_overdue now held x ≡ true) (λ x. refl)
        (reconcile-Moves now held) (select_rows locked_before (is_overdue now held) limit db) j e db
        f (Distinct-select event_key locked_before (is_overdue now held) limit db d)
        (All-select locked_before _ (is_overdue now held) limit db (rows-Found event_key db d))
        (select-All locked_before (is_overdue now held) limit db)

  stage-Distinct :
      (event_id key : ℕ) → Distinct event_key (staged db (stage_event max now event_id key db))
  unfolding stage_event
  stage-Distinct event_id key = elim (Option-cases (find_by_key key db)) [
    | inr (old, k) ↦ rw (stage_event, k) d
    | inl k ↦ elim (Option-cases (find_event event_id db)) [
      | inr (taken, f) ↦ rw (stage_event, k, f) d
      | inl f ↦
          rw (stage_event, k, f) (append-Distinct event_key (new_event now event_id key max) db d f)
    ]
  ]

  perform-Distinct : (call : Call) → Distinct event_key (perform max now call db)
  unfolding perform lease_batch reconcile_stale
  perform-Distinct (staging event_id key) = stage-Distinct event_id key
  perform-Distinct (updating u i worker version) = elim (Option-cases (find_event i db)) [
    | inl g ↦ rw (update_other u now i worker version db g) d
    | inr (a, g) ↦ elim (Bool-cases (lease_condition worker version now a)) [
      | inl h ↦
          rw (update_row u now i worker version db a g, h)
            (Distinct-put event_key (values u now a) db d)
      | inr h ↦ rw (update_row u now i worker version db a g, h) d
    ]
  ]
  perform-Distinct (leasing held worker limit lease_seconds) =
      put_each-Distinct (leased_event worker lease_seconds now)
        (λ x. is_available now held x ≡ true) (λ x. refl)
        (lease-Moves now held worker lease_seconds)
        (select_rows available_before (is_available now held) limit db) db d
  perform-Distinct (reconciling held limit) =
      put_each-Distinct (reconciled_event now) (λ x. is_overdue now held x ≡ true) (λ x. refl)
        (reconcile-Moves now held) (select_rows locked_before (is_overdue now held) limit db) db d

pub replay-Distinct :
    (max : ℕ) (calls : List (ℕ × Call)) (db : List Event)
    → Distinct event_key db
    → Distinct event_key (replay max calls db)
unfolding replay
replay-Distinct max [] db d = d
replay-Distinct max ((now, call) ∷ rest) db d =
    replay-Distinct max rest (perform max now call db) (perform-Distinct max now db d call)

-- Any number of moves.
pub data Lives : Event → Event → Type 0 where
  here : {e : Event} → Lives e e
  onward : {e e1 e2 : Event} → Moves e e1 → Lives e1 e2 → Lives e e2

-- In every history of tables with one row per identifier, an event that is there stays there and lives by
-- the moves: it is leased only when it is
-- ready, each time under the next version, and it is renewed and released only while it is leased.
pub replay-Lives :
    (max : ℕ) (calls : List (ℕ × Call)) (j : ℕ) (e : Event) (db : List Event)
    → Distinct event_key db
    → find_event j db ≡ some e
    → (e' : Event) × (find_event j (replay max calls db) ≡ some e') × Lives e e'
unfolding replay
replay-Lives max [] j e db d f = (e, f, here)
replay-Lives max ((now, call) ∷ rest) j e db d f =
    let (e1, f1, m) = perform-MovesAt max now db d call j e f in
    let (e2, f2, l) =
      replay-Lives max rest j e1 (perform max now call db) (perform-Distinct max now db d call)
        f1 in
    (e2, f2, onward m l)
