-- ===== src/Media/Moves.antt =====
-- What a transaction may do to attempts and assets, and what that keeps.
use ai_game.Base.{
  ℕ, key-find, All-map, ◌≡◌, ap, ◌∙◌, ◌⊎◌, inl, inr, String, true, false, none, some, List, [], ◌∷◌,
  ◌++◌, arith, ◌==◌, any, All, Distinct, put, find, find-put, find-append_old, append-Distinct,
  Distinct-put, Bool-cases,
}
use ai_game.Constants.{MediaAttemptStatus}
use ai_game.Media.Tables.{MediaAsset, MediaAttempt, MediaStore, asset_key, attempt_key}
use ai_game.Media.Repository.{is_started, same_number, terminalize_active}
use ai_game.Media.Lifecycle.{is_reviewable}
use ai_game.Media.Rows.{
  completes, Numbered, put-completes, put-Numbered, append-Numbered, append-completes, find-sweep,
  sweep-Distinct, sweep-Numbered, sweep-completes,
}

-- Nothing; one more attempt, under a fresh number; a change of one under way; the end of all under way for
-- an asset.
pub data AttemptsMove (xs xs' : List MediaAttempt) : Type 0 where
  keeps : xs' ≡ xs → AttemptsMove xs xs'
  adds :
      (a : MediaAttempt)
      → find attempt_key a.attempt_id xs ≡ none
      → any (same_number a.media_asset_id a.attempt_number) xs ≡ false
      → xs' ≡ xs ++ a ∷ []
      → AttemptsMove xs xs'
  edits :
      (e e' : MediaAttempt)
      → find attempt_key e.attempt_id xs ≡ some e
      → is_started e.status ≡ true
      → e'.attempt_id ≡ e.attempt_id
      → e'.media_asset_id ≡ e.media_asset_id
      → e'.attempt_number ≡ e.attempt_number
      → xs' ≡ put attempt_key e' xs
      → AttemptsMove xs xs'
  sweeps :
      (now asset_id : ℕ) (status : MediaAttemptStatus) (code : String)
      → xs' ≡ terminalize_active now asset_id status code xs
      → AttemptsMove xs xs'

-- An asset that awaits its review, or has had it, was completed by an attempt.
abbrev pub Backed : List MediaAttempt → MediaAsset → Type 0
Backed attempts asset =
    (is_reviewable asset.status ≡ false) ⊎ (any (completes asset.media_asset_id) attempts ≡ true)

-- The four moves keep what they find.
module _ (xs xs' : List MediaAttempt) where
  pub AttemptsMove-stays :
      (j : ℕ) (e : MediaAttempt)
      → AttemptsMove xs xs'
      → find attempt_key j xs ≡ some e
      → is_started e.status ≡ false
      → find attempt_key j xs' ≡ some e
  AttemptsMove-stays j e (keeps q) f h = ap (find attempt_key j) q ∙ f
  AttemptsMove-stays j e (adds a g n q) f h =
      ap (find attempt_key j) q ∙ find-append_old attempt_key j a xs e f
  AttemptsMove-stays j e (edits x x' g run id _ _ q) f h =
      ap (find attempt_key j) q
      ∙ ground
          (arith, find-put attempt_key j x' xs, key-find attempt_key j xs e f, f, g, run, h, id)
  AttemptsMove-stays j e (sweeps now a status code q) f h =
      ap (find attempt_key j) q ∙ find-sweep now a status code j e xs f h

  pub AttemptsMove-Distinct :
      AttemptsMove xs xs' → Distinct attempt_key xs → Distinct attempt_key xs'
  AttemptsMove-Distinct (keeps q) d = rw q d
  AttemptsMove-Distinct (adds a g n q) d = rw q (append-Distinct attempt_key a xs d g)
  AttemptsMove-Distinct (edits x x' g run id _ _ q) d = rw q (Distinct-put attempt_key x' xs d)
  AttemptsMove-Distinct (sweeps now a status code q) d =
      rw q (sweep-Distinct now a status code xs d)

  pub AttemptsMove-Numbered : AttemptsMove xs xs' → Numbered xs → Numbered xs'
  AttemptsMove-Numbered (keeps q) d = rw q d
  AttemptsMove-Numbered (adds a g n q) d = rw q (append-Numbered a xs n d)
  AttemptsMove-Numbered (edits x x' g run id asset number q) d =
      rw q (put-Numbered x.attempt_id x x' xs g id asset number d)
  AttemptsMove-Numbered (sweeps now a status code q) d =
      rw q (sweep-Numbered now a status code xs d)

  pub AttemptsMove-completes :
      (i : ℕ) → AttemptsMove xs xs' → any (completes i) xs ≡ true → any (completes i) xs' ≡ true
  AttemptsMove-completes i (keeps q) h = ap (any (completes i)) q ∙ h
  AttemptsMove-completes i (adds a g n q) h = ap (any (completes i)) q ∙ append-completes i a xs h
  AttemptsMove-completes i (edits x x' g run id _ _ q) h =
      ap (any (completes i)) q ∙ put-completes i x.attempt_id x x' xs g run id h
  AttemptsMove-completes i (sweeps now a status code q) h =
      ap (any (completes i)) q ∙ sweep-completes now a status code i xs h

-- What a transaction does to the assets: nothing, or a change of one that is backed.
pub data AssetsMove (s s' : MediaStore) : Type 0 where
  same_assets : s'.assets ≡ s.assets → AssetsMove s s'
  changes :
      (a : MediaAsset)
      → Backed s'.attempts a
      → s'.assets ≡ put asset_key a s.assets
      → AssetsMove s s'

abbrev pub Effect : MediaStore → MediaStore → Type 0
Effect s s' = AttemptsMove s.attempts s'.attempts × AssetsMove s s'

pub record Sound (s : MediaStore) : Type 0 where
  pub assets_distinct : Distinct asset_key s.assets
  pub attempts_distinct : Distinct attempt_key s.attempts
  pub numbered : Numbered s.attempts
  pub backed : All (Backed s.attempts) s.assets

still_Backed :
    (xs xs' : List MediaAttempt) (a : MediaAsset) → AttemptsMove xs xs' → Backed xs a → Backed xs' a
still_Backed xs xs' a m (inl h) = inl h
still_Backed xs xs' a m (inr h) = inr (AttemptsMove-completes xs xs' a.media_asset_id m h)

put-All :
    (P : MediaAsset → Type 0) (a : MediaAsset) (t : List MediaAsset)
    → P a
    → All P t
    → All P (put asset_key a t)
put-All P a [] p h = tt
put-All P a (x ∷ t) p h = elim (Bool-cases (asset_key a == asset_key x)) [
  | inl hit ↦ rw hit (p, h.1)
  | inr miss ↦ rw miss (h.0, put-All P a t p h.1)
]

pub Effect-Sound : (s s' : MediaStore) → Sound s → Effect s s' → Sound s'
Effect-Sound s s' sound (m, same_assets q) = record {
  assets_distinct = rw q sound.assets_distinct;
  attempts_distinct = AttemptsMove-Distinct s.attempts s'.attempts m sound.attempts_distinct;
  numbered = AttemptsMove-Numbered s.attempts s'.attempts m sound.numbered;
  backed = rw q (All-map (λ a. still_Backed s.attempts s'.attempts a m) s.assets sound.backed);
}
Effect-Sound s s' sound (m, changes a b q) = record {
  assets_distinct = rw q (Distinct-put asset_key a s.assets sound.assets_distinct);
  attempts_distinct = AttemptsMove-Distinct s.attempts s'.attempts m sound.attempts_distinct;
  numbered = AttemptsMove-Numbered s.attempts s'.attempts m sound.numbered;
  backed = rw q (
      put-All (Backed s'.attempts) a s.assets b
        (All-map (λ x. still_Backed s.attempts s'.attempts x m) s.assets sound.backed));
}
