-- ===== src/Media/Reviewed.antt =====
-- What a review has checked and written.
use ai_game.Base.{
  ◌++◌, [], ◌∷◌, ◌==◌, All, find, Bool-cases, ℕ, ◌≡◌, refl, ◌⊎◌, inl, inr, true, false, some, List,
  arith, any, All, put, find, Bool-cases, Option-cases,
}
use ai_game.Errors.{transact, ok, transact, Result-cases}
use ai_game.Constants.{MediaAssetStatus}
use ai_game.Auth.Roles.{AuthenticatedActor}
use ai_game.Media.Tables.{
  MediaAsset, MediaAttempt, MediaStore, ReviewDecision, approve, reject, asset_key, find_asset,
  stage_media_event,
}
use ai_game.Media.Review.{
  MediaReviewRequest, sanitized, new_review, is_reviewer, reviewed, create_review, same_reviewer,
  is_missing, review,
}
use ai_game.Media.Moves.{keeps, Backed, same_assets, changes, Effect, Sound}

-- The status, who decided and when, and the sanitised reason, of an asset after a decision.
pub data IsJudged (now : ℕ) (actor : AuthenticatedActor) (q : MediaReviewRequest) (a : MediaAsset)
    : Type 0 where
  approves :
      q.decision ≡ approve
      → a.status ≡ MediaAssetStatus.approved
      → a.approved_by ≡ some actor.actor_id
      → a.approved_at ≡ some now
      → IsJudged now actor q a
  rejects :
      q.decision ≡ reject
      → is_missing q.comment ≡ false
      → a.status ≡ MediaAssetStatus.rejected
      → a.rejected_by ≡ some actor.actor_id
      → a.rejected_at ≡ some now
      → a.rejection_reason ≡ sanitized 1000 q.comment
      → IsJudged now actor q a

Decision-cases : (d : ReviewDecision) → (d ≡ approve) ⊎ (d ≡ reject)
Decision-cases approve = inl refl
Decision-cases reject = inr refl

reviewed-IsJudged :
    (now : ℕ) (actor : AuthenticatedActor) (q : MediaReviewRequest) (a a' : MediaAsset)
    → reviewed now actor.actor_id q a ≡ ok a'
    → IsJudged now actor q a' × (a'.media_asset_id ≡ a.media_asset_id)
unfolding reviewed
reviewed-IsJudged now actor q a a' h = elim (Decision-cases q.decision) [
  | inl d ↦ (
    approves d (ground (arith, h, d)) (ground (arith, h, d)) (ground (arith, h, d)),
    ground (arith, h, d),
  )
  | inr d ↦ (
    rejects d (ground (arith, h, d)) (ground (arith, h, d)) (ground (arith, h, d))
        (ground (arith, h, d)) (ground (arith, h, d)),
    ground (arith, h, d),
  )
]

-- What has been checked of the asset and the actor, and the rows that are written.
abbrev pub IsReview :
    ℕ
    → ℕ
    → MediaReviewRequest
    → AuthenticatedActor
    → MediaStore
    → MediaAsset
    → MediaStore
    → MediaAsset
    → Type 0
IsReview now id q actor s a s' a' =
    (is_reviewer actor.role ≡ true)
    × (find_asset id s ≡ some a)
    × (a.status ≡ MediaAssetStatus.ready_for_review)
    × (any (same_reviewer id actor.actor_id) s.reviews ≡ false)
    × IsJudged now actor q a'
    × (a'.media_asset_id ≡ a.media_asset_id)
    × (s'.assets ≡ put asset_key a' s.assets)
    × (s'.attempts ≡ s.attempts)
    × (s'.tasks ≡ s.tasks)
    × (s'.reviews ≡ s.reviews ++ new_review id q actor ∷ [])

-- A review that succeeds is a reviewer's, a manager's or an administrator's first one of an asset that awaits
-- it. The asset is approved or, with a reason, rejected, by that actor at that time, and the review is added; no
-- other asset, no attempt and no task is changed. The reason and the comment of the review are stored as
-- `sanitize_text` leaves them, cut at 1000 and at 2000 characters.
pub review-IsReview :
    (now id : ℕ) (q : MediaReviewRequest) (actor : AuthenticatedActor) (s : MediaStore)
    (a' : MediaAsset) (s' : MediaStore)
    → review now id q actor s ≡ ok (a', s')
    → (a : MediaAsset) × IsReview now id q actor s a s' a'
unfolding review new_review create_review stage_media_event
review-IsReview now id q actor s a' s' h = elim (Option-cases (find_asset id s)) [
  | inl f ↦ ground (arith, h, f)
  | inr (a, f) ↦ elim (Result-cases (reviewed now actor.actor_id q a)) [
    | inr (e, r) ↦ ground (arith, h, f, r)
    | inl (x, r) ↦
        let same : x ≡ a' = ground (arith, h, f, r) in
        let (judged, key) = reviewed-IsJudged now actor q a x r in
        (
          a,
          (
            ground (arith, h, f, r),
            f,
            ground (arith, h, f, r),
            ground (arith, h, f, r),
            rw (← same) judged,
            rw (← same) key,
            ground (arith, h, f, r),
            ground (arith, h, f, r),
            ground (arith, h, f, r),
            ground (arith, h, f, r),
          ),
        )
  ]
]

still_Backed :
    (xs : List MediaAttempt) (a a' : MediaAsset)
    → a.status ≡ MediaAssetStatus.ready_for_review
    → a'.media_asset_id ≡ a.media_asset_id
    → Backed xs a
    → Backed xs a'
still_Backed xs a a' p same (inl h) = ground (arith, h, p)
still_Backed xs a a' p same (inr h) = inr (rw same h)

All-asset :
    (P : MediaAsset → Type 0) (i : ℕ) (a : MediaAsset) (t : List MediaAsset)
    → find asset_key i t ≡ some a
    → All P t
    → P a
All-asset P i a [] f h = ground (arith, f)
All-asset P i a (x ∷ t) f h = elim (Bool-cases (i == asset_key x)) [
  | inl hit ↦ let is_a : x ≡ a = ground (arith, f, hit) in rw (← is_a) h.0
  | inr miss ↦ All-asset P i a t (ground (arith, f, miss)) h.1
]

pub review-Effect :
    (now id : ℕ) (q : MediaReviewRequest) (actor : AuthenticatedActor) (s : MediaStore)
    → Sound s
    → Effect s (transact (review now id q actor) s).1
review-Effect now id q actor s sound = elim (Result-cases (review now id q actor s)) [
  | inr (e, h) ↦ rw h (keeps refl, same_assets refl)
  | inl ((a', s'), h) ↦
      let (a, facts) = review-IsReview now id q actor s a' s' h in
      let (_, f, p, _, _, same, x, y, _, _) = facts in
      let b = All-asset (Backed s.attempts) id a s.assets f sound.backed in
      rw h (keeps y, changes a' (rw y (still_Backed s.attempts a a' p same b)) x)
]
