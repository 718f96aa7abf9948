-- ===== src/Media/Rows.antt =====
-- Lists of attempts: their numbers, the completed ones, and what sweeps, writes and insertions keep of both.
use ai_game.Base.{
  ℕ, ◌≡◌, refl, inl, inr, String, Bool, true, false, ◌&&◌, some, List, [], ◌∷◌, ◌++◌, arith, ◌==◌,
  any, All, Distinct, Differs, put, find, Bool-cases,
}
use ai_game.Constants.{MediaAttemptStatus}
use ai_game.Media.Tables.{MediaAttempt, attempt_key}
use ai_game.Media.Repository.{
  is_started, same_number, terminalized, terminal_attempt, terminalize_active,
}

abbrev is_completed : MediaAttemptStatus → Bool
is_completed MediaAttemptStatus.completed = true
is_completed _ = false

abbrev pub completes : (asset_id : ℕ) → MediaAttempt → Bool
completes asset_id a = (asset_id == a.media_asset_id) && is_completed a.status

-- One row for each number of an asset.
abbrev pub Numbered : List MediaAttempt → Type 0
Numbered [] = Unit
Numbered (x ∷ xs) =
    All (λ y. same_number x.media_asset_id x.attempt_number y ≡ false) xs × Numbered xs

completed_settled : (t : MediaAttemptStatus) → is_completed t ≡ true → is_started t ≡ false
completed_settled MediaAttemptStatus.completed h = refl
completed_settled MediaAttemptStatus.started h = ground arith
completed_settled MediaAttemptStatus.failed h = refl
completed_settled MediaAttemptStatus.cancelled h = refl

-- The rows of a sweep.
module _ (now asset_id : ℕ) (status : MediaAttemptStatus) (code : String) where
  abbrev sweep : List MediaAttempt → List MediaAttempt
  sweep = terminalize_active now asset_id status code

  abbrev Kept : MediaAttempt → MediaAttempt → Type 0
  Kept x y =
      (y.attempt_id ≡ x.attempt_id)
      × (y.media_asset_id ≡ x.media_asset_id)
      × (y.attempt_number ≡ x.attempt_number)

  terminalized-Kept : (x : MediaAttempt) → Kept x (terminalized now asset_id status code x)
  unfolding terminal_attempt
  terminalized-Kept x = elim (Bool-cases ((asset_id == x.media_asset_id) && is_started x.status)) [
    | inl h ↦ rw h (refl, refl, refl)
    | inr h ↦ rw h (refl, refl, refl)
  ]

  terminalized_settled :
      (x : MediaAttempt) → is_started x.status ≡ false → terminalized now asset_id status code x ≡ x
  terminalized_settled x h = ground arith

  pub find-sweep :
      (j : ℕ) (e : MediaAttempt) (xs : List MediaAttempt)
      → find attempt_key j xs ≡ some e
      → is_started e.status ≡ false
      → find attempt_key j (sweep xs) ≡ some e
  unfolding terminalize_active
  find-sweep j e [] f h = f
  find-sweep j e (x ∷ xs) f h =
      ground (arith, terminalized-Kept x, terminalized_settled x, find-sweep j e xs)

  sweep-Differs :
      (x : MediaAttempt) (xs : List MediaAttempt)
      → All (Differs attempt_key x) xs
      → All (Differs attempt_key (terminalized now asset_id status code x)) (sweep xs)
  unfolding terminalize_active
  sweep-Differs x [] h = tt
  sweep-Differs x (y ∷ ys) h =
      (ground (arith, terminalized-Kept x, terminalized-Kept y, h.0), sweep-Differs x ys h.1)

  pub sweep-Distinct :
      (xs : List MediaAttempt) → Distinct attempt_key xs → Distinct attempt_key (sweep xs)
  unfolding terminalize_active
  sweep-Distinct [] d = tt
  sweep-Distinct (x ∷ xs) d = (sweep-Differs x xs d.0, sweep-Distinct xs d.1)

  sweep-unnumbered :
      (a n : ℕ) (xs : List MediaAttempt)
      → All (λ y. same_number a n y ≡ false) xs
      → All (λ y. same_number a n y ≡ false) (sweep xs)
  unfolding terminalize_active
  sweep-unnumbered a n [] h = tt
  sweep-unnumbered a n (y ∷ ys) h =
      (ground (arith, terminalized-Kept y, h.0), sweep-unnumbered a n ys h.1)

  pub sweep-Numbered : (xs : List MediaAttempt) → Numbered xs → Numbered (sweep xs)
  unfolding terminalize_active
  sweep-Numbered [] d = tt
  sweep-Numbered (x ∷ xs) d =
      let (_, a, n) = terminalized-Kept x in
      (rw (a, n) (sweep-unnumbered x.media_asset_id x.attempt_number xs d.0), sweep-Numbered xs d.1)

  pub sweep-completes :
      (i : ℕ) (xs : List MediaAttempt)
      → any (completes i) xs ≡ true
      → any (completes i) (sweep xs) ≡ true
  unfolding terminalize_active terminal_attempt
  sweep-completes i [] h = h
  sweep-completes i (x ∷ xs) h =
      ground (arith, completed_settled x.status, terminalized_settled x, sweep-completes i xs)

-- The rows after a write to one of them.
pub put-completes :
    (i k : ℕ) (e e' : MediaAttempt) (xs : List MediaAttempt)
    → find attempt_key k xs ≡ some e
    → is_started e.status ≡ true
    → e'.attempt_id ≡ k
    → any (completes i) xs ≡ true
    → any (completes i) (put attempt_key e' xs) ≡ true
put-completes i k e e' [] f run same h = h
put-completes i k e e' (x ∷ xs) f run same h =
    ground (arith, f, completed_settled e.status, put-completes i k e e' xs)

pub put-completes_new :
    (i k : ℕ) (e e' : MediaAttempt) (xs : List MediaAttempt)
    → find attempt_key k xs ≡ some e
    → e'.attempt_id ≡ k
    → completes i e' ≡ true
    → any (completes i) (put attempt_key e' xs) ≡ true
put-completes_new i k e e' [] f same c = ground arith
put-completes_new i k e e' (x ∷ xs) f same c = ground (arith, f, put-completes_new i k e e' xs)

put_unnumbered :
    (a n k : ℕ) (e e' : MediaAttempt) (xs : List MediaAttempt)
    → find attempt_key k xs ≡ some e
    → e'.attempt_id ≡ k
    → e'.media_asset_id ≡ e.media_asset_id
    → e'.attempt_number ≡ e.attempt_number
    → All (λ y. same_number a n y ≡ false) xs
    → All (λ y. same_number a n y ≡ false) (put attempt_key e' xs)
put_unnumbered a n k e e' [] f same asset number h = tt
put_unnumbered a n k e e' (x ∷ xs) f same asset number h =
    elim (Bool-cases (attempt_key e' == attempt_key x)) [
      | inl hit ↦
          let is_e : x ≡ e = ground (arith, f, hit, same) in
          rw hit (rw (asset, number, ← is_e) h.0, h.1)
      | inr miss ↦
          rw miss (
            h.0,
            put_unnumbered a n k e e' xs (ground (arith, f, miss, same)) same asset number h.1,
          )
    ]

pub put-Numbered :
    (k : ℕ) (e e' : MediaAttempt) (xs : List MediaAttempt)
    → find attempt_key k xs ≡ some e
    → e'.attempt_id ≡ k
    → e'.media_asset_id ≡ e.media_asset_id
    → e'.attempt_number ≡ e.attempt_number
    → Numbered xs
    → Numbered (put attempt_key e' xs)
put-Numbered k e e' [] f same asset number h = tt
put-Numbered k e e' (x ∷ xs) f same asset number h =
    elim (Bool-cases (attempt_key e' == attempt_key x)) [
      | inl hit ↦
          let is_e : x ≡ e = ground (arith, f, hit, same) in
          rw hit (rw (asset, number, ← is_e) h.0, h.1)
      | inr miss ↦
          let later : find attempt_key k xs ≡ some e = ground (arith, f, miss, same) in
          rw miss (
            put_unnumbered x.media_asset_id x.attempt_number k e e' xs later same asset number h.0,
            put-Numbered k e e' xs later same asset number h.1,
          )
    ]

append_unnumbered :
    (a : MediaAttempt) (x : MediaAttempt) (xs : List MediaAttempt)
    → All (λ y. same_number x.media_asset_id x.attempt_number y ≡ false) xs
    → same_number a.media_asset_id a.attempt_number x ≡ false
    → All (λ y. same_number x.media_asset_id x.attempt_number y ≡ false) (xs ++ a ∷ [])
append_unnumbered a x [] h n = (ground (arith, n), tt)
append_unnumbered a x (y ∷ ys) h n = (h.0, append_unnumbered a x ys h.1 n)

pub append-Numbered :
    (a : MediaAttempt) (xs : List MediaAttempt)
    → any (same_number a.media_asset_id a.attempt_number) xs ≡ false
    → Numbered xs
    → Numbered (xs ++ a ∷ [])
append-Numbered a [] n h = (tt, tt)
append-Numbered a (x ∷ xs) n h =
    (append_unnumbered a x xs h.0 (ground (arith, n)), append-Numbered a xs (ground (arith, n)) h.1)

pub append-completes :
    (i : ℕ) (a : MediaAttempt) (xs : List MediaAttempt)
    → any (completes i) xs ≡ true
    → any (completes i) (xs ++ a ∷ []) ≡ true
append-completes i a [] h = ground arith
append-completes i a (x ∷ xs) h = ground (arith, append-completes i a xs)
