-- ===== src/Base/Select.antt =====
-- `SELECT … WHERE p ORDER BY before LIMIT n`, and what it selects.
use Prim.Native.Nat.{ℕ, zero, suc}
use mathlib.Core.Path.{◌≡◌, sym}
use mathlib.Core.Logic.{◌≢◌, inl, inr}
use mathlib.Core.Bool.{Bool, true}
use mathlib.Core.Option.{none, some}
use mathlib.Core.List.{List, [], ◌∷◌, ◌++◌}
use native.Mathlib.Omega.{arith}
use ai_game.Base.Tests.{◌==◌, if◌then◌else◌, Bool-cases}
use ai_game.Base.Lists.{take, where_rows, All, All-take}
use ai_game.Base.Table.{find, put}

module _ {ℓ} {A : Type ℓ} (before : A → A → Bool) where
  abbrev pub insert : A → List A → List A
  insert a [] = a ∷ []
  insert a (x ∷ xs) = let rest = insert a xs in if before x a then x ∷ rest else a ∷ x ∷ xs

  -- `ORDER BY`: rows that the order does not tell apart stay as they stand.
  abbrev pub order_by : List A → List A
  order_by [] = []
  order_by (x ∷ xs) = insert x (order_by xs)

  abbrev pub select_rows : (A → Bool) → ℕ → List A → List A
  select_rows p limit rows = take limit (order_by (where_rows p rows))

module _ {ℓ κ} {A : Type ℓ} (before : A → A → Bool) (P : A → Type κ) where
  All-insert : (a : A) (xs : List A) → P a → All P xs → All P (insert before a xs)
  All-insert a [] h k = (h, tt)
  All-insert a (x ∷ xs) h k = elim (Bool-cases (before x a)) [
    | inl e ↦ rw e (k.0, All-insert a xs h k.1)
    | inr e ↦ rw e (h, k)
  ]

  All-order_by : (xs : List A) → All P xs → All P (order_by before xs)
  All-order_by [] h = tt
  All-order_by (x ∷ xs) h = All-insert x (order_by before xs) h.0 (All-order_by xs h.1)

  All-where : (p : A → Bool) (xs : List A) → All P xs → All P (where_rows p xs)
  All-where p [] h = tt
  All-where p (x ∷ xs) h = elim (Bool-cases (p x)) [
    | inl e ↦ rw e (h.0, All-where p xs h.1)
    | inr e ↦ rw e (All-where p xs h.1)
  ]

  pub All-select :
      (p : A → Bool) (n : ℕ) (xs : List A) → All P xs → All P (select_rows before p n xs)
  All-select p n xs h = All-take P n _ (All-order_by _ (All-where p xs h))

module _ {ℓ} {A : Type ℓ} (before : A → A → Bool) (p : A → Bool) where
  where-All : (xs : List A) → All (λ x. p x ≡ true) (where_rows p xs)
  where-All [] = tt
  where-All (x ∷ xs) = elim (Bool-cases (p x)) [
    | inl e ↦ rw e (e, where-All xs)
    | inr e ↦ rw e (where-All xs)
  ]

  pub select-All : (n : ℕ) (xs : List A) → All (λ x. p x ≡ true) (select_rows before p n xs)
  select-All n xs = All-take _ n _ (All-order_by before _ _ (where-All xs))

-- A table whose keys are distinct, and a selection from it.
module _ {ℓ} {A : Type ℓ} (key : A → ℕ) where
  abbrev pub Differs : A → A → Type 0
  Differs x y = key y ≢ key x

  abbrev pub Distinct : List A → Type 0
  Distinct [] = Unit
  Distinct (x ∷ xs) = All (Differs x) xs × Distinct xs

  module _ (before : A → A → Bool) where
    Distinct-insert :
        (a : A) (xs : List A) → All (Differs a) xs → Distinct xs → Distinct (insert before a xs)
    Distinct-insert a [] h d = (tt, tt)
    Distinct-insert a (x ∷ xs) h d = elim (Bool-cases (before x a)) [
      | inl e ↦
          rw e (
            All-insert before (Differs x) a xs (λ q. h.0 (sym q)) d.0,
            Distinct-insert a xs h.1 d.1,
          )
      | inr e ↦ rw e (h, d)
    ]

    Distinct-order_by : (xs : List A) → Distinct xs → Distinct (order_by before xs)
    Distinct-order_by [] d = tt
    Distinct-order_by (x ∷ xs) d =
        Distinct-insert x (order_by before xs) (All-order_by before (Differs x) xs d.0)
          (Distinct-order_by xs d.1)

    Distinct-where : (p : A → Bool) (xs : List A) → Distinct xs → Distinct (where_rows p xs)
    Distinct-where p [] d = tt
    Distinct-where p (x ∷ xs) d = elim (Bool-cases (p x)) [
      | inl e ↦ rw e (All-where before (Differs x) p xs d.0, Distinct-where p xs d.1)
      | inr e ↦ rw e (Distinct-where p xs d.1)
    ]

    Distinct-take : (n : ℕ) (xs : List A) → Distinct xs → Distinct (take n xs)
    Distinct-take zero xs d = tt
    Distinct-take (suc n) [] d = tt
    Distinct-take (suc n) (x ∷ xs) d = (All-take (Differs x) n xs d.0, Distinct-take n xs d.1)

    pub Distinct-select :
        (p : A → Bool) (n : ℕ) (xs : List A) → Distinct xs → Distinct (select_rows before p n xs)
    Distinct-select p n xs d = Distinct-take n _ (Distinct-order_by _ (Distinct-where p xs d))

  -- Every row of such a table is the one that is found under its key.
  abbrev pub Found : List A → A → Type ℓ
  Found t x = find key (key x) t ≡ some x

  Found-later :
      (r : A) (t : List A) (xs : List A)
      → All (Differs r) xs
      → All (Found t) xs
      → All (Found (r ∷ t)) xs
  Found-later r t [] d f = tt
  Found-later r t (x ∷ xs) d f = (ground (arith, d.0, f.0), Found-later r t xs d.1 f.1)

  pub rows-Found : (t : List A) → Distinct t → All (Found t) t
  rows-Found [] d = tt
  rows-Found (x ∷ xs) d = (ground arith, Found-later x xs xs d.0 (rows-Found xs d.1))

  All-put : (x a : A) (t : List A) → All (Differs x) t → All (Differs x) (put key a t)
  All-put x a [] h = tt
  All-put x a (r ∷ t) h = elim (Bool-cases (key a == key r)) [
    | inl e ↦ rw e (ground (arith, h.0), h.1)
    | inr e ↦ rw e (h.0, All-put x a t h.1)
  ]

  pub same_key-Differs :
      (a r : A) (t : List A) → key a ≡ key r → All (Differs r) t → All (Differs a) t
  same_key-Differs a r [] e h = tt
  same_key-Differs a r (x ∷ t) e h = (ground (arith, h.0), same_key-Differs a r t e h.1)

  -- A flush keeps the keys.
  pub Distinct-put : (a : A) (t : List A) → Distinct t → Distinct (put key a t)
  Distinct-put a [] d = tt
  Distinct-put a (r ∷ t) d = elim (Bool-cases (key a == key r)) [
    | inl e ↦ rw e (same_key-Differs a r t (ground arith) d.0, d.1)
    | inr e ↦ rw e (All-put r a t d.0, Distinct-put a t d.1)
  ]

  append-Differs :
      (x a : A) (t : List A) → All (Differs x) t → key a ≢ key x → All (Differs x) (t ++ a ∷ [])
  append-Differs x a [] h n = (n, tt)
  append-Differs x a (y ∷ t) h n = (h.0, append-Differs x a t h.1 n)

  pub append-Distinct :
      (a : A) (t : List A) → Distinct t → find key (key a) t ≡ none → Distinct (t ++ a ∷ [])
  append-Distinct a [] d f = (tt, tt)
  append-Distinct a (x ∷ t) d f =
      (append-Differs x a t d.0 (ground (arith, f)), append-Distinct a t d.1 (ground (arith, f)))
