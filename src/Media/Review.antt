-- ===== src/Media/Review.antt =====
-- app/media/service.py: `MediaService.review`, the decision of a human on an asset.
use ai_game.Base.{
  ℕ, Bool, true, false, not, ◌&&◌, Option, none, some, List, [], ◌∷◌, ◌++◌, ◌==◌, any, find, put,
  Text, text_eq, leb, length,
}
use ai_game.Sanitization.{sanitize_text}
use ai_game.Errors.{
  Result, ok, ensure, required, ◌>>=◌, ◌>>◌, Tx, m7_conflict, m7_resource_not_found, m7_validation,
  dbapi,
}
use ai_game.Constants.{UserRole, reviewer, manager, admin, MediaAssetStatus}
use ai_game.Auth.Roles.{AuthenticatedActor}
use ai_game.Media.Tables.{
  MediaAsset, ReviewDecision, approve, reject, MediaReview, Impact, MediaEvent, media_approved,
  media_rejected, MediaStore, impact_key, find_asset, save_asset, stage_media_event,
}
use ai_game.Media.Attempts.{is_ready}

-- `MediaReviewRequest`
pub record MediaReviewRequest : Type 0 where
  pub decision : ReviewDecision
  pub rating : Option ℕ
  pub comment : Option Text

abbrev pub is_reviewer : UserRole → Bool
is_reviewer reviewer = true
is_reviewer manager = true
is_reviewer admin = true
is_reviewer _ = false

abbrev pub is_missing : Option Text → Bool
is_missing none = true
is_missing (some []) = true
is_missing (some (c ∷ rest)) = false

-- `sanitize_text(comment, …) if comment else None`
unfoldable pub sanitized : (max_characters : ℕ) → Option Text → Option Text
unfolding sanitize_text
sanitized max_characters none = none
sanitized max_characters (some []) = none
sanitized max_characters (some (c ∷ rest)) = some (sanitize_text (c ∷ rest) max_characters)

-- Whether a column of that many characters takes a value; the database raises otherwise.
abbrev pub fits_column : ℕ → Option Text → Bool
fits_column width none = true
fits_column width (some t) = leb (length t) width

-- The assignments of a decision; a rejection wants a reason, which is cut before secrets in it are hidden.
unfoldable pub reviewed : ℕ → Text → MediaReviewRequest → MediaAsset → Result MediaAsset
unfolding sanitized
reviewed now actor_id q asset = elim q.decision [
  | approve ↦ ok (record asset {
    status = MediaAssetStatus.approved;
    approved_by = some actor_id;
    approved_at = some now;
  })
  | reject ↦ do
    ensure (not (is_missing q.comment)) m7_validation
    let reason = sanitized 1000 q.comment
    ensure (fits_column 1000 reason) (dbapi false)
    ok (record asset {
      status = MediaAssetStatus.rejected;
      rejected_by = some actor_id;
      rejected_at = some now;
      rejection_reason = reason;
    })
]

abbrev pub judged : ReviewDecision → Impact → Impact
judged approve impact = record impact { output_accepted = some true }
judged reject impact = record impact {
  output_accepted = some false;
  accepted_without_editing = false;
}

abbrev judge_impact : ReviewDecision → Option ℕ → List Impact → List Impact
judge_impact decision none impacts = impacts
judge_impact decision (some id) impacts = elim (find impact_key id impacts) [
  | none ↦ impacts
  | some impact ↦ put impact_key (judged decision impact) impacts
]

abbrev pub same_reviewer : (asset_id : ℕ) → Text → MediaReview → Bool
same_reviewer asset_id actor_id review =
    (asset_id == review.media_asset_id) && text_eq actor_id review.actor_id

-- `create_review`, under `uq_media_reviews_asset_actor` and the width of the comment; a violation is not
-- caught.
unfoldable pub create_review : MediaReview → List MediaReview → Result (List MediaReview)
create_review review table = do
  ensure (fits_column 2000 review.comment) (dbapi false)
  ensure (not (any (same_reviewer review.media_asset_id review.actor_id) table)) (dbapi false)
  ok (table ++ review ∷ [])

abbrev pub review_event : ReviewDecision → ℕ → MediaEvent
review_event approve = media_approved
review_event reject = media_rejected

-- The row of a review.
unfoldable pub new_review : ℕ → MediaReviewRequest → AuthenticatedActor → MediaReview
unfolding sanitized
new_review asset_id q actor = record {
  media_asset_id = asset_id;
  actor_id = actor.actor_id;
  decision = q.decision;
  rating = q.rating;
  comment = sanitized 2000 q.comment;
}

unfoldable pub review : ℕ → ℕ → MediaReviewRequest → AuthenticatedActor → Tx MediaStore MediaAsset
unfolding reviewed new_review create_review stage_media_event
review now asset_id q actor store = do
  ensure (is_reviewer actor.role) m7_conflict
  asset ← required (find_asset asset_id store) m7_resource_not_found
  ensure (is_ready asset.status) m7_conflict
  asset' ← reviewed now actor.actor_id q asset
  reviews ← create_review (new_review asset_id q actor) store.reviews
  ok (
    asset',
    stage_media_event (review_event q.decision asset_id) (record (save_asset asset' store) {
      impacts = judge_impact q.decision asset.task_run_id store.impacts;
      reviews = reviews;
    }),
  )
