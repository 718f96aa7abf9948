-- ===== src/Base/Table.antt =====
-- A database table: its rows in the order of insertion, each with a primary key.
use Prim.Native.Nat.{ℕ}
use mathlib.Core.Path.{◌≡◌, refl}
use mathlib.Core.Option.{Option, none, some}
use mathlib.Core.List.{List, [], ◌∷◌, ◌++◌}
use native.Mathlib.Omega.{arith}
use ai_game.Base.Tests.{◌==◌, if◌then◌else◌}

module _ {ℓ} {A : Type ℓ} (key : A → ℕ) where
  -- `SELECT … WHERE key = k`, `scalar_one_or_none`
  abbrev pub find : ℕ → List A → Option A
  find k [] = none
  find k (r ∷ t) = if k == key r then some r else find k t

  -- The flush of a row object that was loaded and changed.
  abbrev pub put : A → List A → List A
  put a [] = []
  put a (r ∷ t) = if key a == key r then a ∷ t else r ∷ put a t

  pub key-find : (k : ℕ) (t : List A) (r : A) → find k t ≡ some r → key r ≡ k
  key-find k [] r h = ground arith
  key-find k (x ∷ t) r h = ground (arith, key-find k t r)

  -- What stands in the place of a row that may be missing.
  abbrev pub written : A → Option A → Option A
  written a none = none
  written a (some r) = some a

  pub find-put :
      (j : ℕ) (a : A) (t : List A)
      → find j (put a t) ≡ (if j == key a then written a (find j t) else find j t)
  find-put j a [] = ground arith
  find-put j a (r ∷ t) = ground (arith, find-put j a t)

  pub find-append_one :
      (j : ℕ) (a : A) (t : List A)
      → find j t ≡ none
      → find j (t ++ a ∷ []) ≡ (if j == key a then some a else none)
  find-append_one j a [] h = refl
  find-append_one j a (r ∷ t) h = ground (arith, find-append_one j a t)

  pub find-append_old :
      (j : ℕ) (a : A) (t : List A) (r : A) → find j t ≡ some r → find j (t ++ a ∷ []) ≡ some r
  find-append_old j a [] r h = ground arith
  find-append_old j a (x ∷ t) r h = ground (arith, find-append_old j a t r)
