-- ===== src/Media/Histories.antt =====
-- Histories of the transactions on media, one after the other in whatever order and by whatever workers.
-- Between them others may do anything to the job queue. Assets are there from the start.
use ai_game.Base.{
  ℕ, ◌≡◌, refl, String, Bool, false, none, some, List, [], ◌∷◌, Option-cases, inl, inr,
}
use ai_game.Errors.{transact}
use ai_game.Constants.{MediaAttemptStatus}
use ai_game.Auth.Roles.{AuthenticatedActor}
use ai_game.Jobs.Tables.{JobDb}
use ai_game.Media.Tables.{MediaAttempt, MediaStore, find_attempt}
use ai_game.Media.Repository.{LeasedJob, Report, is_started}
use ai_game.Media.Attempts.{Work, Output, start_image, start_storyboard, finalize, finish_attempt}
use ai_game.Media.Lifecycle.{
  reconcile_task, reconcile_media, ensure_success_consistency, prepare_task_retry,
  prepare_media_retry,
}
use ai_game.Media.Review.{MediaReviewRequest, review}
use ai_game.Media.Reviewed.{review-Effect}
use ai_game.Media.Moves.{keeps, same_assets, AttemptsMove-stays, Effect, Sound, Effect-Sound}
use ai_game.Media.Calls.{
  start_image-Effect, start_storyboard-Effect, finalize-Effect, finish_attempt-Effect,
  reconcile_media-Effect, reconcile_task-Effect, ensure_success_consistency-Effect,
  prepare_media_retry-Effect, prepare_task_retry-Effect,
}

pub data Call : Type 0 where
  starts_image : (now attempt_id : ℕ) → Work → Call
  starts_storyboard : (request_is_valid has_prompt : Bool) → (now attempt_id : ℕ) → Work → Call
  delivers : (now attempt_id worker_id : ℕ) → LeasedJob → Output → Call
  ends : (now attempt_id worker_id : ℕ) → MediaAttemptStatus → String → Report → Call
  reconciles_media : (now : ℕ) → (cancelled : Bool) → String → (asset_id : ℕ) → Call
  reconciles_task : (now : ℕ) → (cancelled : Bool) → String → (task_run_id : ℕ) → Call
  checks : (now asset_id : ℕ) → Call
  retries_media : (asset_id : ℕ) → Call
  retries_task : (task_run_id : ℕ) → Call
  reviews_asset : (now asset_id : ℕ) → MediaReviewRequest → AuthenticatedActor → Call
  changes_queue : JobDb → Call

-- A worker completes the attempt that it has started, for the asset of that attempt.
abbrev pub delivered_one :
    (now attempt_id worker_id : ℕ) → LeasedJob → Output → MediaStore → MediaStore
delivered_one now attempt_id worker_id job output s = elim (find_attempt attempt_id s) [
  | none ↦ s
  | some e ↦
      (transact
        (finalize now attempt_id
          (record { asset_id = e.media_asset_id; worker_id = worker_id; job = job }) output)
        s).1
]

unfoldable pub perform : Call → MediaStore → MediaStore
unfolding start_image start_storyboard finish_attempt reconcile_media reconcile_task
    ensure_success_consistency prepare_media_retry prepare_task_retry review
perform (starts_image now attempt_id work) s = (transact (start_image now attempt_id work) s).1
perform (starts_storyboard valid prompt now attempt_id work) s =
    (transact (start_storyboard valid prompt now attempt_id work) s).1
perform (delivers now attempt_id worker_id job output) s =
    delivered_one now attempt_id worker_id job output s
perform (ends now attempt_id worker_id status code report) s =
    finish_attempt now attempt_id worker_id status code report s
perform (reconciles_media now cancelled code asset_id) s =
    reconcile_media now cancelled code asset_id s
perform (reconciles_task now cancelled code task_run_id) s =
    reconcile_task now cancelled code task_run_id s
perform (checks now asset_id) s = (ensure_success_consistency now asset_id s).1
perform (retries_media asset_id) s = prepare_media_retry asset_id s
perform (retries_task task_run_id) s = prepare_task_retry task_run_id s
perform (reviews_asset now asset_id q actor) s = (transact (review now asset_id q actor) s).1
perform (changes_queue queue) s = record s { queue = queue }

unfoldable pub replay_media : List Call → MediaStore → MediaStore
unfolding perform
replay_media [] s = s
replay_media (call ∷ rest) s = replay_media rest (perform call s)

perform-Effect : (call : Call) (s : MediaStore) → Sound s → Effect s (perform call s)
unfolding perform
perform-Effect (starts_image now attempt_id work) s sound = start_image-Effect now attempt_id work s
perform-Effect (starts_storyboard valid prompt now attempt_id work) s sound =
    start_storyboard-Effect valid prompt now attempt_id work s
perform-Effect (delivers now attempt_id worker_id job output) s sound =
    elim (Option-cases (find_attempt attempt_id s)) [
      | inl f ↦ rw (delivered_one, f) (keeps refl, same_assets refl)
      | inr (e, f) ↦
          rw (delivered_one, f) (finalize-Effect now attempt_id worker_id job output s e f)
    ]
perform-Effect (ends now attempt_id worker_id status code report) s sound =
    finish_attempt-Effect now attempt_id worker_id status code report s
perform-Effect (reconciles_media now cancelled code asset_id) s sound =
    reconcile_media-Effect now cancelled code asset_id s
perform-Effect (reconciles_task now cancelled code task_run_id) s sound =
    reconcile_task-Effect now cancelled code task_run_id s
perform-Effect (checks now asset_id) s sound = ensure_success_consistency-Effect now asset_id s
perform-Effect (retries_media asset_id) s sound = prepare_media_retry-Effect asset_id s
perform-Effect (retries_task task_run_id) s sound = prepare_task_retry-Effect task_run_id s
perform-Effect (reviews_asset now asset_id q actor) s sound =
    review-Effect now asset_id q actor s sound
perform-Effect (changes_queue queue) s sound = (keeps refl, same_assets refl)

-- From sound tables every history leads to sound ones: one row for each asset and each attempt, one attempt
-- for each number of an asset, and a completed attempt behind every asset that awaits its review, was
-- approved or was rejected.
pub replay_media-Sound :
    (calls : List Call) (s : MediaStore) → Sound s → Sound (replay_media calls s)
unfolding replay_media
replay_media-Sound [] s sound = sound
replay_media-Sound (call ∷ rest) s sound =
    replay_media-Sound rest (perform call s)
      (Effect-Sound s (perform call s) sound (perform-Effect call s sound))

-- From sound tables an attempt that is not under way stays as it is in every history.
pub settled_attempt-stays :
    (calls : List Call) (s : MediaStore) (j : ℕ) (e : MediaAttempt)
    → Sound s
    → find_attempt j s ≡ some e
    → is_started e.status ≡ false
    → find_attempt j (replay_media calls s) ≡ some e
unfolding replay_media
settled_attempt-stays [] s j e sound f h = f
settled_attempt-stays (call ∷ rest) s j e sound f h =
    let effect = perform-Effect call s sound in
    settled_attempt-stays rest (perform call s) j e (Effect-Sound s (perform call s) sound effect)
      (AttemptsMove-stays s.attempts (perform call s).attempts j e effect.0 f h) h
