-- ===== src/Media/Tables.antt =====
-- The tables of media assets (app/database/models.py), with the job queue's beside them. Identifiers and
-- places of files are numbers, times are in microseconds, and costs are in millionths. The columns of
-- prompts, providers and campaigns, JSON results, message texts and `updated_at` are left out.
use ai_game.Base.{
  ℕ, ◌-◌, ◌/◌, String, Bool, false, Option, none, some, List, [], ◌∷◌, ◌++◌, ◌==◌, any, find, put,
  if◌then◌else◌, Text,
}
use ai_game.Constants.{MediaAssetStatus, MediaAttemptStatus, AppliedTaskStatus}
use ai_game.Jobs.Tables.{JobDb}

pub data MimeType : Type 0 where
  png jpeg unsupported : MimeType

pub data SafetyStatus : Type 0 where
  pending not_applicable passed_checks ready_for_human_review : SafetyStatus

-- `MediaAssetModel`
pub record MediaAsset : Type 0 where
  pub media_asset_id : ℕ
  pub task_run_id : Option ℕ
  pub status : MediaAssetStatus
  pub storage_uri : Option ℕ
  pub mime_type : Option MimeType
  pub width : Option ℕ
  pub height : Option ℕ
  pub estimated_cost : Option ℕ
  pub safety_status : SafetyStatus
  pub approved_by : Option Text
  pub approved_at : Option ℕ
  pub rejected_by : Option Text
  pub rejected_at : Option ℕ
  pub rejection_reason : Option Text
  pub error_code : Option String
  pub completed_at : Option ℕ

-- `MediaGenerationAttemptModel`, of a job and a worker.
pub record MediaAttempt : Type 0 where
  pub attempt_id : ℕ
  pub media_asset_id : ℕ
  pub job_id : ℕ
  pub worker_id : ℕ
  pub job_attempt_number : ℕ
  pub attempt_number : ℕ
  pub provider_job_id : Option ℕ
  pub status : MediaAttemptStatus
  pub started_at : ℕ
  pub completed_at : Option ℕ
  pub duration_ms : Option ℕ
  pub estimated_cost : Option ℕ
  pub error_code : Option String

-- `AppliedWorkflowTaskModel`
pub record Task : Type 0 where
  pub task_run_id : ℕ
  pub status : AppliedTaskStatus
  pub error_code : Option String
  pub started_at : Option ℕ
  pub completed_at : Option ℕ
  pub duration_ms : Option ℕ
  pub input_tokens : ℕ
  pub output_tokens : ℕ
  pub estimated_cost : ℕ

pub data ReviewDecision : Type 0 where
  approve reject : ReviewDecision

-- `MediaReviewModel`
pub record MediaReview : Type 0 where
  pub media_asset_id : ℕ
  pub actor_id : Text
  pub decision : ReviewDecision
  pub rating : Option ℕ
  pub comment : Option Text

-- The columns of `AITaskImpactModel` that a review writes.
pub record Impact : Type 0 where
  pub task_run_id : ℕ
  pub output_accepted : Option Bool
  pub accepted_without_editing : Bool

-- The events of media, each with the asset. Their keys are `media-ready:<id>` and
-- `media-review:<id>:<decision>`.
pub data MediaEvent : Type 0 where
  media_ready_for_review media_approved media_rejected : ℕ → MediaEvent

unfoldable pub same_event : MediaEvent → MediaEvent → Bool
same_event (media_ready_for_review i) (media_ready_for_review j) = i == j
same_event (media_approved i) (media_approved j) = i == j
same_event (media_rejected i) (media_rejected j) = i == j
same_event _ _ = false

pub record MediaStore : Type 0 where
  pub assets : List MediaAsset
  pub attempts : List MediaAttempt
  pub tasks : List Task
  pub impacts : List Impact
  pub reviews : List MediaReview
  pub events : List MediaEvent
  pub queue : JobDb

abbrev pub asset_key : MediaAsset → ℕ
asset_key asset = asset.media_asset_id

abbrev pub attempt_key : MediaAttempt → ℕ
attempt_key attempt = attempt.attempt_id

abbrev pub task_key : Task → ℕ
task_key task = task.task_run_id

abbrev pub impact_key : Impact → ℕ
impact_key impact = impact.task_run_id

-- `get_asset`, `get_asset_for_update`
abbrev pub find_asset : ℕ → MediaStore → Option MediaAsset
find_asset id store = find asset_key id store.assets

-- `get_attempt_for_update`
abbrev pub find_attempt : ℕ → MediaStore → Option MediaAttempt
find_attempt id store = find attempt_key id store.attempts

-- `get(task_run_id) if task_run_id else None`
abbrev pub find_task : Option ℕ → MediaStore → Option Task
find_task none store = none
find_task (some id) store = find task_key id store.tasks

abbrev pub save_asset : MediaAsset → MediaStore → MediaStore
save_asset asset store = record store { assets = put asset_key asset store.assets }

abbrev pub save_attempt : MediaAttempt → MediaStore → MediaStore
save_attempt attempt store = record store { attempts = put attempt_key attempt store.attempts }

abbrev pub save_task : Task → MediaStore → MediaStore
save_task task store = record store { tasks = put task_key task store.tasks }

-- A change of the task, if it is there.
abbrev pub change_task : (Task → Task) → Option ℕ → MediaStore → MediaStore
change_task change id store = elim (find_task id store) [
  | none ↦ store
  | some task ↦ save_task (change task) store
]

-- `OutboxService.add_event`
unfoldable pub stage_media_event : MediaEvent → MediaStore → MediaStore
unfolding same_event
stage_media_event event store =
    if any (same_event event) store.events
    then store
    else record store { events = store.events ++ event ∷ [] }

-- `_duration_ms`
abbrev pub duration_ms : Option ℕ → ℕ → ℕ
duration_ms none completed_at = 0
duration_ms (some started_at) completed_at = (completed_at - started_at) / 1000
