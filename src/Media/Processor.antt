-- ===== src/Media/Processor.antt =====
-- app/media/service.py and app/media/safety.py: the run of `generate_image` and `generate_storyboard`. What the
-- provider, the file store and the checkpoint of the job answer are arguments, and so is what other
-- transactions do to the tables while the provider works.
use ai_game.Base.{
  ℕ, String, Bool, false, not, ◌&&◌, Option, none, some, List, [], ◌∷◌, ltb, leb, length,
  if◌then◌else◌,
}
use ai_game.Errors.{
  Error, Result, ok, err, ensure, ◌>>=◌, ◌>>◌, transact, job_cancelled, task_cancelled,
  m7_validation,
}
use ai_game.Constants.{MediaAttemptStatus}
use ai_game.Actions.Rules.{starts_with}
use ai_game.Actions.Finish.{is_foreign}
use ai_game.Media.Tables.{MimeType, png, jpeg, unsupported, MediaAttempt, MediaStore}
use ai_game.Media.Repository.{Report}
use ai_game.Media.Attempts.{
  Work, Output, image, storyboard, start_attempt, start_storyboard, finalize, finish_attempt,
}

-- `GeneratedImage`
pub record GeneratedImage : Type 0 where
  pub content : List ℕ
  pub mime_type : MimeType
  pub width : ℕ
  pub height : ℕ
  pub provider_job_id : Option ℕ
  pub estimated_cost : ℕ
  pub is_flagged : Bool

-- The test of the content for each type.
abbrev has_signature : MimeType → List ℕ → Bool
has_signature png content = starts_with (0x89 ∷ 80 ∷ 78 ∷ 71 ∷ 13 ∷ 10 ∷ 26 ∷ 10 ∷ []) content
has_signature jpeg content = starts_with (0xff ∷ 0xd8 ∷ 0xff ∷ []) content
has_signature unsupported content = false

unfoldable pub validate_generated_image : ℕ → GeneratedImage → Result (Unit {0})
validate_generated_image max_bytes generated = do
  ensure (ltb 0 (length generated.content) && leb (length generated.content) max_bytes)
      m7_validation
  ensure (has_signature generated.mime_type generated.content) m7_validation
  ensure
      (leb 1 generated.width
        && (leb 1 generated.height && (leb generated.width 4096 && leb generated.height 4096)))
      m7_validation
  ensure (not generated.is_flagged) m7_validation

-- What a run finds outside the tables. A cancellation of the task is an answer of the provider.
pub record Circumstances : Type 0 where
  pub started_at : ℕ
  pub attempt_id : ℕ
  pub attempt_id2 : ℕ
  pub meanwhile : MediaStore → MediaStore
  pub checkpoint : Result (Unit {0})
  pub finished_at : ℕ
  pub failed_at : ℕ

-- `_safe_media_error`, with the status
abbrev ending : (Error → String) → Error → MediaAttemptStatus × String
ending error_code job_cancelled = (MediaAttemptStatus.cancelled, "JOB_CANCELLED")
ending error_code task_cancelled = (MediaAttemptStatus.cancelled, "JOB_CANCELLED")
ending error_code e =
    (MediaAttemptStatus.failed, if is_foreign e then "MEDIA_ERROR" else error_code e)

-- The `except` clauses: the attempt is ended, and the exception raised again.
unfoldable pub except_attempt :
    (Error → String)
    → (now attempt_id worker_id : ℕ) → Report
    → Result (Unit {0}) × MediaStore
    → Result (Unit {0}) × MediaStore
unfolding finish_attempt
except_attempt error_code now attempt_id worker_id report (ok done, store) = (ok done, store)
except_attempt error_code now attempt_id worker_id report (err e, store) =
    let (status, code) = ending error_code e in
    (err e, finish_attempt now attempt_id worker_id status code report store)

abbrev pub finalized :
    (now attempt_id : ℕ) → Work → Result Output → MediaStore → Result (Unit {0}) × MediaStore
finalized now attempt_id work (err e) store = (err e, store)
finalized now attempt_id work (ok output) store =
    transact (finalize now attempt_id work output) store

-- What follows the start of an attempt.
unfoldable pub run_attempt :
    (Error → String)
    → Circumstances
    → Work
    → Result Output
    → Report
    → Result (Option MediaAttempt) × MediaStore
    → Result (Unit {0}) × MediaStore
unfolding except_attempt finalize
run_attempt error_code c work output report (err e, store) = (err e, store)
run_attempt error_code c work output report (ok none, store) = (ok tt, store)
run_attempt error_code c work output report (ok (some attempt), store) =
    except_attempt error_code c.failed_at attempt.attempt_id work.worker_id report
      (finalized c.finished_at attempt.attempt_id work output (c.meanwhile store))

-- The `try` block of `generate_image` before its end.
unfoldable pub produced :
    (max_bytes media_max_cost : ℕ)
    → Result GeneratedImage
    → (storage : Result ℕ) → (checkpoint : Result (Unit {0})) → Result Output
unfolding validate_generated_image
produced max_bytes media_max_cost provider storage checkpoint = do
  generated ← provider
  validate_generated_image max_bytes generated
  ensure (leb generated.estimated_cost media_max_cost) m7_validation
  uri ← storage
  checkpoint
  ok (
      image uri generated.mime_type generated.width generated.height generated.estimated_cost
        generated.provider_job_id)

abbrev image_report : Result GeneratedImage → Report
image_report (err e) = record { provider_job_id = none; estimated_cost = none }
image_report (ok generated) = record {
  provider_job_id = generated.provider_job_id;
  estimated_cost = some generated.estimated_cost;
}

unfoldable pub generate_image :
    (Error → String)
    → (max_bytes media_max_cost : ℕ) → Circumstances
    → Result GeneratedImage
    → (storage : Result ℕ) → Work
    → MediaStore
    → Result (Unit {0}) × MediaStore
unfolding start_attempt run_attempt produced
generate_image error_code max_bytes media_max_cost c provider storage work store =
    run_attempt error_code c work (produced max_bytes media_max_cost provider storage c.checkpoint)
      (image_report provider) (start_attempt c.started_at c.attempt_id c.attempt_id2 work store)

-- The tokens and the cost of a completion that is a storyboard.
pub record Completion : Type 0 where
  pub input_tokens : ℕ
  pub output_tokens : ℕ
  pub estimated_cost : ℕ

abbrev drawn : Result Completion → (checkpoint : Result (Unit {0})) → Result Output
drawn provider checkpoint = do
  completion ← provider
  checkpoint
  ok (storyboard completion.input_tokens completion.output_tokens completion.estimated_cost)

abbrev storyboard_report : Result Completion → Report
storyboard_report (err e) = record { provider_job_id = none; estimated_cost = none }
storyboard_report (ok completion) = record {
  provider_job_id = none;
  estimated_cost = some completion.estimated_cost;
}

unfoldable pub generate_storyboard :
    (Error → String)
    → (request_is_valid has_prompt : Bool) → Circumstances
    → Result Completion
    → Work
    → MediaStore
    → Result (Unit {0}) × MediaStore
unfolding start_storyboard run_attempt
generate_storyboard error_code request_is_valid has_prompt c provider work store =
    run_attempt error_code c work (drawn provider c.checkpoint) (storyboard_report provider)
      (transact (start_storyboard request_is_valid has_prompt c.started_at c.attempt_id work) store)
