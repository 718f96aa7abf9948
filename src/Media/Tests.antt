-- ===== src/Media/Tests.antt =====
-- Media at the tables of Samples.
use ai_game.Base.{
  ℕ, zero, suc, ◌++◌, Text, ◌≡◌, ◌≢◌, refl, true, false, none, some, List, [], ◌∷◌, map, codes,
  arith, inl,
}
use ai_game.Errors.{err, dbapi, ok}
use ai_game.Constants.{
  reviewer, MediaAssetStatus, generating, MediaAttemptStatus, AppliedTaskStatus, JobStatus,
  JobAttemptStatus,
}
use ai_game.Auth.Roles.{AuthenticatedActor}
use ai_game.Jobs.Tables.{Job, JobDb}
use ai_game.Jobs.Attempts.{closed, finish_attempt}
use ai_game.Jobs.Leases.{required_live_lease}
use ai_game.Jobs.Finish.{failed, fail}
use ai_game.Media.Tables.{
  reject, media_rejected, png, MediaAsset, MediaAttempt, approve, media_ready_for_review,
  MediaStore, find_asset, find_attempt, stage_media_event,
}
use ai_game.Media.Repository.{
  next_attempt_number, insert_attempt, new_attempt, create_started_attempt, terminal_attempt,
  mark_terminal, has_active_attempt, owns_live_job_lease,
}
use ai_game.Media.Attempts.{
  Output, image, report, delivered, completed_task, complete_task, start_storyboard, finalize,
}
use ai_game.Media.Processor.{validate_generated_image, produced, generate_image}
use ai_game.Media.Lifecycle.{ensure_success_consistency}
use ai_game.Sanitization.{sanitize_text}
use ai_game.Media.Review.{MediaReviewRequest, new_review, reviewed, create_review, review}
use ai_game.Media.Worker.{process}
use ai_game.Media.Finalized.{Checked, Written, finalize-Checked}
use ai_game.Media.Moves.{Sound}
use ai_game.Media.Reviewed.{IsReview, review-IsReview}
use ai_game.Media.Histories.{
  Call, starts_image, delivers, reviews_asset, replay_media, replay_media-Sound,
  settled_attempt-stays,
}
use ai_game.Media.Orphans.{HasFailed, orphan_fails}
use ai_game.Media.Generation.{marked_asset, misnumbered_attempt-fails}
use ai_game.Media.Delivery.{generate_image-delivers}
use ai_game.Media.Samples.{
  job, queue, asset, task, attempt, store, work, waiting, lost, picture, circumstances, error_code,
  worker,
}

keeps_numbers :
    (t : MediaStore) (e e' : MediaAttempt)
    → find_attempt 2 t ≡ some e
    → find_attempt 2 t ≡ some e'
    → e'.attempt_number ≡ e.attempt_number
keeps_numbers t e e' f g = ground (arith, f, g)

misnumbered_attempt-fails_example :
    (generate_image error_code 20000000 50 circumstances (ok picture) (ok 123) work lost).0 ≢ ok tt
unfolding next_attempt_number
misnumbered_attempt-fails_example =
    misnumbered_attempt-fails error_code 20000000 50 circumstances (ok picture) (ok 123) work lost
      (asset generating) refl refl refl (omega arith) keeps_numbers

abbrev output : Output
output = image 123 png 512 512 40 none

generate_image-delivers_example :
    (s' : MediaStore) × (generate_image error_code 20000000 50 circumstances
        (ok picture)
        (ok 123)
        work
        waiting
      ≡ (ok tt, s'))
    × (find_asset 7 s'
        ≡ some (delivered 30 output (marked_asset 20 2 work waiting (asset generating))))
    × (ensure_success_consistency 31 7 s' ≡ (ok tt, s'))
unfolding next_attempt_number has_active_attempt owns_live_job_lease produced
    validate_generated_image
generate_image-delivers_example =
    generate_image-delivers error_code 20000000 50 circumstances (ok picture) (ok 123) work waiting
      (asset generating) output 31 refl refl refl refl refl refl refl (λ t. refl)

-- After the run of the second attempt, beside the first that was left.
abbrev ready : MediaStore
ready =
    store MediaAssetStatus.ready_for_review AppliedTaskStatus.completed
      (attempt 1 1 8 MediaAttemptStatus.started ∷ attempt 2 2 9 MediaAttemptStatus.completed ∷ [])

abbrev failed_job : Job
failed_job = failed 32 "MEDIA_ERROR" false 1 60 job

abbrev failed_queue : JobDb
failed_queue = record {
  jobs = failed_job ∷ [];
  attempts = map (closed (some 9) JobAttemptStatus.failed 32 (some "MEDIA_ERROR")) queue.attempts;
}

orphan_fails_example :
    HasFailed 7 (process worker work (ok tt, ready)).1
    × (failed_job.status ≡ JobStatus.dead_letter)
    × ((process worker work (ok tt, ready)).1.queue ≡ failed_queue)
unfolding has_active_attempt fail required_live_lease finish_attempt
orphan_fails_example =
    orphan_fails worker work ready (asset MediaAssetStatus.ready_for_review) failed_job failed_queue
      refl refl refl refl

abbrev ana : AuthenticatedActor
ana = record { actor_id = codes "ana"; role = reviewer }

abbrev approval : MediaReviewRequest
approval = record { decision = approve; rating = some 5; comment = none }

abbrev history_of_image : List Call
history_of_image =
    starts_image 20 2 work ∷ delivers 30 2 9 work.job output ∷ reviews_asset 50 7 approval ana ∷ []

waiting-Sound : Sound waiting
waiting-Sound = record {
  assets_distinct = (tt, tt);
  attempts_distinct = (tt, tt);
  numbered = (tt, tt);
  backed = (inl refl, tt);
}

replay_media-Sound_example : Sound (replay_media history_of_image waiting)
replay_media-Sound_example = replay_media-Sound history_of_image waiting waiting-Sound

settled_attempt-stays_example :
    find_attempt 1 (replay_media history_of_image waiting)
    ≡ some (attempt 1 1 8 MediaAttemptStatus.failed)
settled_attempt-stays_example =
    settled_attempt-stays history_of_image waiting 1 (attempt 1 1 8 MediaAttemptStatus.failed)
      waiting-Sound refl refl

-- The second attempt under way.
abbrev begun_store : MediaStore
begun_store =
    store generating AppliedTaskStatus.processing
      (attempt 1 1 8 MediaAttemptStatus.failed ∷ attempt 2 2 9 MediaAttemptStatus.started ∷ [])

abbrev delivered_store : MediaStore
delivered_store = record begun_store {
  assets = delivered 30 output (asset generating) ∷ [];
  attempts =
      attempt 1 1 8 MediaAttemptStatus.failed
      ∷ terminal_attempt 30 MediaAttemptStatus.completed none (report output)
          (attempt 2 2 9 MediaAttemptStatus.started)
      ∷ [];
  tasks = completed_task 30 output (task AppliedTaskStatus.processing) ∷ [];
  events = media_ready_for_review 7 ∷ [];
}

finalize-Checked_example :
    (a : MediaAsset) × (e : MediaAttempt) × Checked 30 2 work output begun_store a e
    × Written 30 2 work output begun_store a e delivered_store
unfolding finalize owns_live_job_lease complete_task mark_terminal stage_media_event
    terminal_attempt
finalize-Checked_example = finalize-Checked 30 2 work output begun_store delivered_store refl

abbrev rejection : MediaReviewRequest
rejection = record {
  decision = reject;
  rating = some 2;
  comment = some (codes "it shows token: abc again");
}

abbrev rejected_asset : MediaAsset
rejected_asset = record (asset MediaAssetStatus.ready_for_review) {
  status = MediaAssetStatus.rejected;
  rejected_by = some (codes "ana");
  rejected_at = some 50;
  rejection_reason = some (codes "it shows token=[REDACTED] again");
}

abbrev rejected_store : MediaStore
rejected_store = record ready {
  assets = rejected_asset ∷ [];
  reviews =
      record {
        media_asset_id = 7;
        actor_id = codes "ana";
        decision = reject;
        rating = some 2;
        comment = some (codes "it shows token=[REDACTED] again");
      }
      ∷ [];
  events = media_rejected 7 ∷ [];
}

review-IsReview_example :
    (a : MediaAsset) × IsReview 50 7 rejection ana ready a rejected_store rejected_asset
unfolding review reviewed new_review create_review stage_media_event
review-IsReview_example =
    review-IsReview 50 7 rejection ana ready rejected_asset rejected_store refl

-- A storyboard that was approved is generated again when its job runs once more.
approved_restarts :
    (start_storyboard true true 60 5 work
      (store MediaAssetStatus.approved AppliedTaskStatus.completed []))
    ≡ ok (
      some (new_attempt 60 5 7 9 work.job []),
      record (store generating AppliedTaskStatus.processing []) {
        attempts = new_attempt 60 5 7 9 work.job [] ∷ [];
        tasks = record (task AppliedTaskStatus.processing) { completed_at = none } ∷ [];
      },
    )
unfolding start_storyboard create_started_attempt insert_attempt new_attempt next_attempt_number
approved_restarts = refl

-- Secrets are hidden, whatever their case, and the rest is kept.
sanitize_example :
    sanitize_text (codes "ok, API-Key : abc; BEARER x.y z=postgresql+asyncpg://u:p@h") 500
    ≡ codes "ok, API-Key=[REDACTED] Bearer [REDACTED] z=postgresql+asyncpg://[REDACTED]@h"
unfolding sanitize_text
sanitize_example = refl

-- A reason of a thousand characters that repeats a short secret no longer fits its column when the secrets
-- are hidden, and the review raises.
abbrev secrets : ℕ → Text
secrets zero = []
secrets (suc n) = codes "token=a " ++ secrets n

long_reason_raises :
    reviewed 50
      (codes "ana")
      (record { decision = reject; rating = none; comment = some (secrets 125) })
      (asset MediaAssetStatus.ready_for_review)
    ≡ err (dbapi false)
unfolding reviewed
long_reason_raises = refl
