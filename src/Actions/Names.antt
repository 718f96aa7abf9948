-- ===== src/Actions/Names.antt =====
-- Canonical names are words that single underscores separate, and are their own canonical names.
use ai_game.Base.{
  ℕ, ◌≡◌, refl, ap, ◌∙◌, Bool, true, false, [], ◌∷◌, map, arith, if◌then◌else◌, Text, Bool-cases,
  inl, inr,
}
use ai_game.Actions.Rules.{
  is_space, lower_code, is_word, drop_front, keep_back, drop_back, strip, underscored,
  is_underscore, canonical_action_name,
}

-- Words with single underscores. The flag asks that no underscore comes first.
data Slug : Bool → Text → Type 0 where
  done : {b : Bool} → Slug b []
  word : {b : Bool} {c : ℕ} {t : Text} → is_word c ≡ true → Slug false t → Slug b (c ∷ t)
  line : {t : Text} → Slug true t → Slug false (b'_' ∷ t)

other_character :
    (b : Bool) (rest : Text) → Slug true rest → Slug b (if b then rest else b'_' ∷ rest)
other_character true rest s = s
other_character false rest s = line s

underscored-Slug : (b : Bool) (t : Text) → Slug b (underscored b t)
unfolding underscored
underscored-Slug b [] = done
underscored-Slug b (c ∷ t) = elim (Bool-cases (is_word c)) [
  | inl e ↦ rw (underscored, e) (word e (underscored-Slug false t))
  | inr e ↦ rw (underscored, e) (other_character b _ (underscored-Slug true t))
]

word-not_underscore : (c : ℕ) → is_word c ≡ true → is_underscore c ≡ false
unfolding is_word
word-not_underscore c h = ground arith

drop_front-Slug : (b : Bool) (t : Text) → Slug b t → Slug true (drop_front is_underscore t)
drop_front-Slug b [] s = done
drop_front-Slug b (c ∷ t) (word w s) = rw (word-not_underscore c w) (word w s)
drop_front-Slug false (c ∷ t) (line s) = drop_front-Slug true t s

module _ (p : ℕ → Bool) where
  keep_back-Slug : (b : Bool) (c : ℕ) (t : Text) → Slug b (c ∷ t) → Slug b (keep_back p c t)
  keep_back-Slug b c [] s = elim (Bool-cases (p c)) [ inl e ↦ rw e done | inr e ↦ rw e s ]
  keep_back-Slug b c (d ∷ t) s = s

  drop_back-Slug : (b : Bool) (t : Text) → Slug b t → Slug b (drop_back p t)
  drop_back-Slug b [] s = done
  drop_back-Slug b (c ∷ t) (word w s) = keep_back-Slug b c _ (word w (drop_back-Slug false t s))
  drop_back-Slug false (c ∷ t) (line s) = keep_back-Slug false c _ (line (drop_back-Slug true t s))

  keep_back_again :
      (c : ℕ) (t : Text) → drop_back p t ≡ t → drop_back p (keep_back p c t) ≡ keep_back p c t
  keep_back_again c [] h = elim (Bool-cases (p c)) [ inl e ↦ rw e refl | inr e ↦ ground (arith, e) ]
  keep_back_again c (d ∷ t) h = rw h refl

  drop_back_again : (t : Text) → drop_back p (drop_back p t) ≡ drop_back p t
  drop_back_again [] = refl
  drop_back_again (c ∷ t) = keep_back_again c (drop_back p t) (drop_back_again t)

kept :
    (c : ℕ) (t : Text)
    → is_space c ≡ false
    → drop_back is_space t ≡ t
    → drop_back is_space (c ∷ t) ≡ c ∷ t
kept c [] e h = rw e refl
kept c (d ∷ t) e h = ap (keep_back is_space c) h

slug_characters : (c : ℕ) → is_word c ≡ true → (is_space c ≡ false) × (lower_code c ≡ c)
unfolding is_word is_space lower_code
slug_characters c h = (ground (arith, h), ground (arith, h))

drop_front_none : (t : Text) → Slug true t → drop_front is_underscore t ≡ t
drop_front_none [] s = refl
drop_front_none (c ∷ t) (word w s) = rw (word-not_underscore c w) refl

unspaced_front : (b : Bool) (t : Text) → Slug b t → drop_front is_space t ≡ t
unfolding is_space
unspaced_front b [] s = refl
unspaced_front b (c ∷ t) (word w s) = ground (arith, slug_characters c w)
unspaced_front false (c ∷ t) (line s) = refl

unspaced_back : (b : Bool) (t : Text) → Slug b t → drop_back is_space t ≡ t
unfolding is_space
unspaced_back b [] s = refl
unspaced_back b (c ∷ t) (word w s) = kept c t (slug_characters c w).0 (unspaced_back false t s)
unspaced_back false (c ∷ t) (line s) = kept b'_' t refl (unspaced_back true t s)

lower_same : (b : Bool) (t : Text) → Slug b t → map lower_code t ≡ t
unfolding lower_code
lower_same b [] s = refl
lower_same b (c ∷ t) (word w s) = cc ((slug_characters c w).1, lower_same false t s)
lower_same false (c ∷ t) (line s) = ap (λ x. b'_' ∷ x) (lower_same true t s)

underscored_same : (b : Bool) (t : Text) → Slug b t → underscored b t ≡ t
unfolding underscored
underscored_same b [] s = refl
underscored_same b (c ∷ t) (word w s) =
    rw (underscored, w) (ap (λ x. c ∷ x) (underscored_same false t s))
underscored_same false (c ∷ t) (line s) = ap (λ x. b'_' ∷ x) (underscored_same true t s)

anywhere : (t : Text) → Slug true t → Slug false t
anywhere [] s = done
anywhere (c ∷ t) (word w s) = word w s

canonical-Slug : (t : Text) → Slug true (canonical_action_name t)
unfolding canonical_action_name
canonical-Slug t =
    drop_back-Slug is_underscore true _
      (drop_front-Slug false _ (underscored-Slug false (map lower_code (strip is_space t))))

ends : (t : Text) → drop_back is_underscore (canonical_action_name t) ≡ canonical_action_name t
unfolding canonical_action_name
ends t =
    drop_back_again is_underscore
      (drop_front is_underscore (underscored false (map lower_code (strip is_space t))))

Slug-same : (t : Text) → Slug true t → drop_back is_underscore t ≡ t → canonical_action_name t ≡ t
unfolding canonical_action_name
Slug-same t s k =
    let spaces : strip is_space t ≡ t =
      ap (drop_back is_space) (unspaced_front true t s) ∙ unspaced_back true t s in
    let lowered : map lower_code (strip is_space t) ≡ t =
      ap (map lower_code) spaces ∙ lower_same true t s in
    let lines : underscored false (map lower_code (strip is_space t)) ≡ t =
      ap (underscored false) lowered ∙ underscored_same false t (anywhere t s) in
    ap (strip is_underscore) lines ∙ (ap (drop_back is_underscore) (drop_front_none t s) ∙ k)

-- The canonical name of a canonical name is that name.
pub canonical_action_name-idempotent :
    (t : Text) → canonical_action_name (canonical_action_name t) ≡ canonical_action_name t
canonical_action_name-idempotent t = Slug-same (canonical_action_name t) (canonical-Slug t) (ends t)
