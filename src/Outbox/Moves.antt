-- ===== src/Outbox/Moves.antt =====
-- The life of an event, apart from its lease's columns, and that every operation keeps to it.
use ai_game.Base.{
  ℕ, ◌+◌, ◌≡◌, refl, ap, ◌∙◌, Bool, true, false, some, List, [], ◌∷◌, arith, ◌==◌, All, Distinct,
  Distinct-put, Differs, find-put, put, Bool-cases, inl, inr,
}
use ai_game.Constants.{OutboxStatus}
use ai_game.Outbox.Tables.{Event, event_key, find_event, is_processing, is_ready}
use ai_game.Outbox.Repository.{
  lease_condition, values, Update, mark_processed, mark_failed, renew_lease, is_available,
  leased_event, put_each, is_overdue, reconciled_event,
}

-- A move of one event: it stays; a ready one is leased under the next version; a leased one is renewed, or
-- released into another state under its version.
pub data Moves (e e' : Event) : Type 0 where
  stays : e' ≡ e → Moves e e'
  is_leased :
      is_ready e.status ≡ true
      → e'.status ≡ OutboxStatus.processing
      → e'.lease_version ≡ e.lease_version + 1
      → Moves e e'
  is_renewed :
      e.status ≡ OutboxStatus.processing
      → e'.status ≡ OutboxStatus.processing
      → e'.lease_version ≡ e.lease_version
      → Moves e e'
  is_released :
      e.status ≡ OutboxStatus.processing
      → is_processing e'.status ≡ false
      → e'.lease_version ≡ e.lease_version
      → Moves e e'

pub update-Moves :
    (u : Update) (now worker version : ℕ) (e : Event)
    → lease_condition worker version now e ≡ true
    → Moves e (values u now e)
unfolding lease_condition
update-Moves mark_processed now worker version e h = is_released (ground (arith, h)) refl refl
update-Moves (renew_lease s) now worker version e h =
    is_renewed (ground (arith, h)) (ground (arith, h)) refl
update-Moves (mark_failed a m c b t) now worker version e h =
    is_released (ground (arith, h)) (ground arith) refl

pub lease-Moves :
    (now : ℕ) (held : ℕ → Bool) (worker lease_seconds : ℕ) (e : Event)
    → is_available now held e ≡ true
    → Moves e (leased_event worker lease_seconds now e)
unfolding is_available
lease-Moves now held worker lease_seconds e h = is_leased (ground (arith, h)) refl refl

pub reconcile-Moves :
    (now : ℕ) (held : ℕ → Bool) (e : Event)
    → is_overdue now held e ≡ true
    → Moves e (reconciled_event now e)
unfolding is_overdue
reconcile-Moves now held e h = is_released (ground (arith, h)) (ground arith) refl

-- The event `j` of the new table is a move away from that of the old one.
abbrev pub MovesAt : ℕ → Event → List Event → Type 0
MovesAt j e db' = (e' : Event) × (find_event j db' ≡ some e') × Moves e e'

-- A changed row is put in its place.
pub put-Moves :
    (j : ℕ) (e a a' : Event) (db : List Event)
    → find_event j db ≡ some e
    → find_event a.outbox_event_id db ≡ some a
    → a'.outbox_event_id ≡ a.outbox_event_id
    → Moves a a'
    → MovesAt j e (put event_key a' db)
put-Moves j e a a' db f g same m = elim (Bool-cases (j == a.outbox_event_id)) [
  | inl here ↦
      let id : j ≡ a.outbox_event_id = ground (arith, here) in
      let at : find_event j db ≡ some a = ap (λ x. find_event x db) id ∙ g in
      let is_a : a ≡ e = cc (at, f) in
      (a', ground (arith, find-put event_key j a' db, at, same, here), rw (← is_a) m)
  | inr elsewhere ↦ (e, ground (arith, find-put event_key j a' db, f, same, elsewhere), stays refl)
]

abbrev At : List Event → Event → Type 0
At db e = find_event e.outbox_event_id db ≡ some e

still-At :
    (a a' : Event) (db : List Event) (rest : List Event)
    → a'.outbox_event_id ≡ a.outbox_event_id
    → All (Differs event_key a) rest
    → All (At db) rest
    → All (At (put event_key a' db)) rest
still-At a a' db [] same d t = tt
still-At a a' db (x ∷ xs) same d t = (
  ground (arith, find-put event_key x.outbox_event_id a' db, t.0, d.0, same),
  still-At a a' db xs same d.1 t.1,
)

-- What a loop that treats each row once does to one event: nothing, or its treatment.
module _ (change : Event → Event) (P : Event → Type 0)
    (same : (e : Event) → (change e).outbox_event_id ≡ e.outbox_event_id)
    (may : (e : Event) → P e → Moves e (change e)) where
  not_among :
      (j : ℕ) (e : Event) (rows db : List Event)
      → find_event j db ≡ some e
      → All (λ (r : Event). (j == r.outbox_event_id) ≡ false) rows
      → find_event j (put_each change rows db) ≡ some e
  unfolding put_each
  not_among j e [] db f o = f
  not_among j e (r ∷ rows) db f o =
      not_among j e rows (put event_key (change r) db)
        (ground (arith, find-put event_key j (change r) db, f, same r, o.0)) o.1

  differ_from :
      (j : ℕ) (r : Event) (rows : List Event)
      → (j == r.outbox_event_id) ≡ true
      → All (Differs event_key r) rows
      → All (λ (x : Event). (j == x.outbox_event_id) ≡ false) rows
  differ_from j r [] h d = tt
  differ_from j r (x ∷ xs) h d = (ground (arith, h, d.0), differ_from j r xs h d.1)

  pub put_each-MovesAt :
      (rows : List Event) (j : ℕ) (e : Event) (db : List Event)
      → find_event j db ≡ some e
      → Distinct event_key rows
      → All (At db) rows
      → All P rows
      → MovesAt j e (put_each change rows db)
  unfolding put_each
  put_each-MovesAt [] j e db f d t p = (e, f, stays refl)
  put_each-MovesAt (r ∷ rows) j e db f d t p = elim (Bool-cases (j == r.outbox_event_id)) [
    | inl here ↦
        let (e1, f1, m1) = put-Moves j e r (change r) db f t.0 (same r) (may r p.0) in
        (
          e1,
          not_among j e1 rows (put event_key (change r) db) f1 (differ_from j r rows here d.0),
          m1,
        )
    | inr elsewhere ↦
        put_each-MovesAt rows j e (put event_key (change r) db)
          (ground (arith, find-put event_key j (change r) db, f, same r, elsewhere)) d.1
          (still-At r (change r) db rows (same r) d.0 t.1) p.1
  ]

  pub put_each-Distinct :
      (rows db : List Event) → Distinct event_key db → Distinct event_key (put_each change rows db)
  unfolding put_each
  put_each-Distinct [] db d = d
  put_each-Distinct (r ∷ rows) db d =
      put_each-Distinct rows (put event_key (change r) db) (Distinct-put event_key (change r) db d)
