-- ===== src/Outbox/Once.antt =====
-- What a consumer writes for an event is committed at most once.
use ai_game.Base.{
  ℕ, ◌≡◌, refl, ◌⊎◌, inl, inr, ◌≢◌, true, false, some, List, [], ◌∷◌, String, arith, Distinct, put,
  find-put, Bool-cases, Option-cases, key-find,
}
use ai_game.Errors.{Error, Result, Result-cases}
use ai_game.Constants.{OutboxStatus}
use ai_game.Outbox.Tables.{Event, event_key, find_event}
use ai_game.Outbox.Repository.{
  mark_processed, renew_lease, update_event, Update, lease_condition, processed_event,
}
use ai_game.Outbox.Calls.{Call, updating, perform, replay, replay-Distinct}
use ai_game.Outbox.Tokens.{update_found, update_missing, settled_event-stays}
use ai_game.Outbox.Dispatcher.{
  OutboxSettings, Dispatch, is_updated, commit_processed, record_failure, renew_and_commit,
  dispatch_event,
}

-- The event is in the table, and processed.
abbrev pub IsProcessed : ℕ → List Event → Type 0
IsProcessed i db = (e : Event) × (find_event i db ≡ some e) × (e.status ≡ OutboxStatus.processed)

-- A mark that is made leaves the event processed.
marked-IsProcessed :
    (now i worker version : ℕ) (db : List Event)
    → is_updated (update_event mark_processed now i worker version db).0 ≡ true
    → IsProcessed i (update_event mark_processed now i worker version db).1
marked-IsProcessed now i worker version db h = elim (Option-cases (find_event i db)) [
  | inl f ↦ ground (arith, h, update_missing mark_processed now i worker version db f)
  | inr (e, f) ↦ elim (Bool-cases (lease_condition worker version now e)) [
    | inr c ↦ absurd (ground (arith, h, c, update_found mark_processed now i worker version db e f))
    | inl c ↦
        let written : (update_event mark_processed now i worker version db).1
            ≡ put event_key (processed_event now e) db =
          ground (arith, c, update_found mark_processed now i worker version db e f) in
        (
          processed_event now e,
          ground (
            arith,
            written,
            f,
            key-find event_key i db e f,
            find-put event_key i (processed_event now e) db,
          ),
          refl,
        )
  ]
]

-- A processed event is renewed by nobody.
processed_unrenewed :
    (u : Update) (now i worker version : ℕ) (db : List Event)
    → IsProcessed i db
    → is_updated (update_event u now i worker version db).0 ≡ false
unfolding lease_condition
processed_unrenewed u now i worker version db (e, f, p) =
    ground (arith, p, update_found u now i worker version db e f)

kept-IsProcessed :
    (max : ℕ) (calls : List (ℕ × Call)) (i : ℕ) (db : List Event)
    → Distinct event_key db
    → IsProcessed i db
    → IsProcessed i (replay max calls db)
kept-IsProcessed max calls i db d (e, f, p) =
    (e, settled_event-stays max calls i e db d f (ground (arith, p)) (ground (arith, p)), p)

updated-Distinct :
    (u : Update) (now i worker version : ℕ) (db : List Event)
    → Distinct event_key db
    → Distinct event_key (update_event u now i worker version db).1
unfolding replay perform
updated-Distinct u now i worker version db d =
    replay-Distinct 0 ((now, updating u i worker version) ∷ []) db d

module _ {ℓ} {World : Type ℓ} (settings : OutboxSettings) (worker : ℕ) (error_code : Error → String)
    (consumer : Event → World → Result World) (d : Dispatch) (event : Event) (world : World) where
  -- Nothing is committed for an event that is processed.
  refused :
      (db : List Event)
      → Distinct event_key db
      → IsProcessed event.outbox_event_id db
      → (dispatch_event settings worker error_code consumer d event world db).0 ≡ world
  unfolding dispatch_event renew_and_commit
  refused db g p =
      let at =
        kept-IsProcessed settings.max_attempts d.while_consuming event.outbox_event_id db g p in
      let unrenewed =
        processed_unrenewed (renew_lease settings.lease_seconds) d.renewed_at event.outbox_event_id
          worker event.lease_version (replay settings.max_attempts d.while_consuming db) at in
      ground (arith, unrenewed)

  -- Either nothing is committed, or the event is processed; the keys stay distinct.
  abbrev Settles : World × List Event → Type ℓ
  Settles (world', db') =
      Distinct event_key db' × ((world' ≡ world) ⊎ IsProcessed event.outbox_event_id db')

  committed-Settles :
      (consumed : World) (db : List Event)
      → Distinct event_key db
      → Settles
          (commit_processed settings worker error_code consumer event d.marked_at consumed world db)
  unfolding commit_processed
  committed-Settles consumed db g =
      let i = event.outbox_event_id in
      let v = event.lease_version in
      elim (Bool-cases (is_updated (update_event mark_processed d.marked_at i worker v db).0)) [
        | inl h ↦
            rw (commit_processed, h)
              (
                updated-Distinct mark_processed d.marked_at i worker v db g,
                inr (marked-IsProcessed d.marked_at i worker v db h),
              )
        | inr h ↦ rw (commit_processed, h) (g, inl refl)
      ]

  renewed-Settles :
      (consumed : World) (db : List Event)
      → Distinct event_key db
      → Settles (renew_and_commit settings worker error_code consumer d event consumed world db)
  unfolding renew_and_commit
  renewed-Settles consumed db g =
      let i = event.outbox_event_id in
      let v = event.lease_version in
      let renewal = renew_lease settings.lease_seconds in
      elim (Bool-cases (is_updated (update_event renewal d.renewed_at i worker v db).0)) [
        | inr h ↦ rw (renew_and_commit, h) (g, inl refl)
        | inl h ↦
            rw (renew_and_commit, h)
              (committed-Settles consumed _ (
                replay-Distinct settings.max_attempts d.before_mark _
                  (updated-Distinct renewal d.renewed_at i worker v db g)))
      ]

  dispatched-Settles :
      (db : List Event)
      → Distinct event_key db
      → Settles (dispatch_event settings worker error_code consumer d event world db)
  unfolding dispatch_event renew_and_commit record_failure
  dispatched-Settles db g =
      let max = settings.max_attempts in
      let db' = replay max d.while_consuming db in
      let g' : Distinct event_key db' = replay-Distinct max d.while_consuming db g in
      elim (Bool-cases d.lost_by_heartbeat) [
        | inl lost ↦ rw (dispatch_event, lost) (g', inl refl)
        | inr kept ↦ elim (Result-cases (consumer event world)) [
          | inl (consumed, c) ↦ rw (dispatch_event, kept, c) (renewed-Settles consumed db' g')
          | inr (e, c) ↦
              rw (dispatch_event, kept, c)
                (
                  updated-Distinct _ d.marked_at event.outbox_event_id worker event.lease_version _
                      (replay-Distinct max d.before_mark db' g'),
                  inl refl,
                )
        ]
      ]

-- In tables with one row per identifier: once a dispatch has committed what the consumer wrote for an event,
-- no later dispatch of that event commits anything, whoever dispatches it under whatever lease, with
-- whatever consumer, and whatever happens to the outbox in between.
pub dispatch_event-once {ℓ} :
    {World : Type ℓ} (settings : OutboxSettings) (worker worker2 : ℕ) (error_code : Error → String)
    (consumer consumer2 : Event → World → Result World) (d d2 : Dispatch) (event event2 : Event)
    (world world2 : World) (later : List (ℕ × Call)) (db : List Event)
    → Distinct event_key db
    → (dispatch_event settings worker error_code consumer d event world db).0 ≢ world
    → event2.outbox_event_id ≡ event.outbox_event_id
    → (dispatch_event settings worker2 error_code consumer2 d2 event2 world2 (
        replay settings.max_attempts later
          (dispatch_event settings worker error_code consumer d event world db).1)).0
      ≡ world2
dispatch_event-once settings worker worker2 error_code consumer consumer2 d d2 event event2 world
      world2 later db g committed same =
    let max = settings.max_attempts in
    let (g', s) = dispatched-Settles settings worker error_code consumer d event world db g in
    elim s [
      | inl nothing ↦ absurd (committed nothing)
      | inr processed ↦
          refused settings worker2 error_code consumer2 d2 event2 world2 _
            (replay-Distinct max later _ g')
            (kept-IsProcessed max later event2.outbox_event_id _ g' (rw same processed))
    ]
