-- ===== src/Actions/Ledger.antt =====
-- The table of executions when one of its rows is changed or added.
use ai_game.Base.{
  ℕ, ◌≡◌, refl, ◌≢◌, sym, false, none, some, List, [], ◌∷◌, ◌++◌, arith, ◌==◌, any, All, Distinct,
  Differs, put, find, Bool-cases, inl, inr, same_key-Differs,
}
use ai_game.Actions.Tables.{ActionExecution, execution_key}
use ai_game.Actions.Life.{request_of}
use ai_game.Actions.Executions.{same_request}

pub All-found :
    (P : ActionExecution → Type 0) (i : ℕ) (e : ActionExecution) (xs : List ActionExecution)
    → find execution_key i xs ≡ some e
    → All P xs
    → P e
All-found P i e [] f h = ground (arith, f)
All-found P i e (x ∷ xs) f h = elim (Bool-cases (i == x.action_execution_id)) [
  | inl hit ↦ let same : x ≡ e = ground (arith, f, hit) in rw (← same) h.0
  | inr miss ↦ All-found P i e xs (ground (arith, f, miss)) h.1
]

-- A predicate of the other rows and one of the new row give one of all rows.
module _ (i : ℕ) (e e' : ActionExecution) (same_id : e'.action_execution_id ≡ i)
    (same_request_id : e'.action_request_id ≡ e.action_request_id) where
  module _ (P Q : ActionExecution → Type 0)
      (others : (x : ActionExecution) → x.action_request_id ≢ e.action_request_id → P x → Q x)
      (new : Q e') where
    keep_others : (xs : List ActionExecution) → All (Differs request_of e) xs → All P xs → All Q xs
    keep_others [] d h = tt
    keep_others (x ∷ xs) d h = (others x d.0 h.0, keep_others xs d.1 h.1)

    pub replaced-All :
        (xs : List ActionExecution)
        → find execution_key i xs ≡ some e
        → Distinct request_of xs
        → All P xs
        → All Q (put execution_key e' xs)
    replaced-All [] f d h = tt
    replaced-All (x ∷ xs) f d h =
        elim (Bool-cases (e'.action_execution_id == x.action_execution_id)) [
          | inl hit ↦
              let same : x ≡ e = ground (arith, f, hit, same_id) in
              let differ : All (Differs request_of e) xs = rw (← same) d.0 in
              rw hit (new, keep_others xs differ h.1)
          | inr miss ↦
              let later : find execution_key i xs ≡ some e = ground (arith, f, miss, same_id) in
              let apart = All-found (Differs request_of x) i e xs later d.0 in
              rw miss (others x (λ q. apart (sym q)) h.0, replaced-All xs later d.1 h.1)
        ]

  apart_replaced :
      (x : ActionExecution) (xs : List ActionExecution)
      → e.action_request_id ≢ x.action_request_id
      → All (Differs request_of x) xs
      → All (Differs request_of x) (put execution_key e' xs)
  apart_replaced x [] n h = tt
  apart_replaced x (y ∷ ys) n h =
      elim (Bool-cases (e'.action_execution_id == y.action_execution_id)) [
        | inl hit ↦ rw hit (ground (arith, n, same_request_id), h.1)
        | inr miss ↦ rw miss (h.0, apart_replaced x ys n h.1)
      ]

  pub replaced-Distinct :
      (xs : List ActionExecution)
      → find execution_key i xs ≡ some e
      → Distinct request_of xs
      → Distinct request_of (put execution_key e' xs)
  replaced-Distinct [] f d = tt
  replaced-Distinct (x ∷ xs) f d =
      elim (Bool-cases (e'.action_execution_id == x.action_execution_id)) [
        | inl hit ↦
            let same : x ≡ e = ground (arith, f, hit, same_id) in
            rw hit
              (same_key-Differs request_of e' x xs (ground (arith, same, same_request_id)) d.0, d.1)
        | inr miss ↦
            let later : find execution_key i xs ≡ some e = ground (arith, f, miss, same_id) in
            rw miss (
              apart_replaced x xs (All-found (Differs request_of x) i e xs later d.0) d.0,
              replaced-Distinct xs later d.1,
            )
      ]

-- No row names the request, as the test of the insertion says.
pub unnamed :
    (id : ℕ) (xs : List ActionExecution)
    → any (same_request id) xs ≡ false
    → find request_of id xs ≡ none
unnamed id [] h = refl
unnamed id (x ∷ xs) h = ground (arith, h, unnamed id xs)

pub append-All :
    (P : ActionExecution → Type 0) (e : ActionExecution) (xs : List ActionExecution)
    → All P xs
    → P e
    → All P (xs ++ e ∷ [])
append-All P e [] h p = (p, tt)
append-All P e (x ∷ xs) h p = (h.0, append-All P e xs h.1 p)

-- The second of two writes to one row stands.
pub put-put {ℓ} :
    {A : Type ℓ} (key : A → ℕ) (x y : A) (t : List A)
    → key x ≡ key y
    → put key x (put key y t) ≡ put key x t
put-put key x y [] e = refl
put-put key x y (r ∷ t) e = elim (Bool-cases (key y == key r)) [
  | inl hit ↦ ground (arith, e, hit)
  | inr miss ↦ ground (arith, e, miss, put-put key x y t e)
]
