-- ===== src/Media/Attempts.antt =====
-- app/media/service.py: the sessions of `MediaProcessor`, which start, complete and end an attempt. The clock
-- and new identifiers are arguments.
use ai_game.Base.{ℕ, String, Bool, true, false, ◌&&◌, Option, none, some, ◌==◌, if◌then◌else◌}
use ai_game.Errors.{
  Result, ok, err, ensure, required, ◌>>=◌, ◌>>◌, Tx, transact, m7_resource_not_found, unexpected,
  media_attempt_lease_lost, media_attempt_finalization, media_attempt_state_conflict,
}
use ai_game.Constants.{
  MediaAssetStatus, generating, MediaAttemptStatus, MediaAttemptUpdateResult, updated,
  AppliedTaskStatus, processing,
}
use ai_game.Media.Tables.{
  MimeType, SafetyStatus, MediaAsset, MediaAttempt, Task, media_ready_for_review, MediaStore,
  find_asset, find_attempt, find_task, save_asset, save_task, change_task, stage_media_event,
  duration_ms,
}
use ai_game.Media.Repository.{
  LeasedJob, Report, is_started, create_started_attempt, mark_terminal, owns_live_job_lease,
}

-- A job at work for an asset, at a time.
pub record Work : Type 0 where
  pub asset_id : ℕ
  pub worker_id : ℕ
  pub job : LeasedJob

abbrev pub is_delivered : MediaAssetStatus → Bool
is_delivered MediaAssetStatus.ready_for_review = true
is_delivered MediaAssetStatus.approved = true
is_delivered _ = false

abbrev pub is_ready : MediaAssetStatus → Bool
is_ready MediaAssetStatus.ready_for_review = true
is_ready _ = false

abbrev pub is_generating : MediaAssetStatus → Bool
is_generating generating = true
is_generating _ = false

abbrev pub is_processing : AppliedTaskStatus → Bool
is_processing processing = true
is_processing _ = false

-- `task.started_at or now`
abbrev pub time_or : Option ℕ → ℕ → ℕ
time_or none now = now
time_or (some t) now = t

abbrev pub processing_task : ℕ → Task → Task
processing_task now task = record task {
  status = processing;
  started_at = some (time_or task.started_at now);
}

-- One round of `_start_attempt`: `none` is a delivered asset.
unfoldable pub start_image : (now attempt_id : ℕ) → Work → Tx MediaStore (Option MediaAttempt)
unfolding create_started_attempt
start_image now attempt_id work store = do
  asset ← required (find_asset work.asset_id store) m7_resource_not_found
  if is_delivered asset.status then ok (none, store) else (do
    let marked =
        change_task (processing_task now) asset.task_run_id
          (save_asset (record asset { status = generating; error_code = none }) store)
    (attempt, store') ←
        create_started_attempt now attempt_id work.asset_id work.worker_id work.job marked
    ok (some attempt, store'))

-- The loop of `_start_attempt`: a conflict on the number of the attempt is tried once more.
abbrev pub or_again :
    Result (Option MediaAttempt) × MediaStore
    → (MediaStore → Result (Option MediaAttempt) × MediaStore)
    → Result (Option MediaAttempt) × MediaStore
or_again (err media_attempt_state_conflict, store) again = again store
or_again first again = first

unfoldable pub start_attempt :
    (now attempt_id attempt_id2 : ℕ) → Work → MediaStore → Result (Option MediaAttempt) × MediaStore
unfolding start_image
start_attempt now attempt_id attempt_id2 work store =
    or_again (transact (start_image now attempt_id work) store)
      (transact (start_image now attempt_id2 work))

-- The first session of `generate_storyboard`. The flags say whether the request in the task is valid and the
-- version of the prompt is there.
unfoldable pub start_storyboard :
    (request_is_valid has_prompt : Bool)
    → (now attempt_id : ℕ) → Work
    → Tx MediaStore (Option MediaAttempt)
unfolding create_started_attempt
start_storyboard request_is_valid has_prompt now attempt_id work store = do
  asset ← required (find_asset work.asset_id store) m7_resource_not_found
  if is_ready asset.status then ok (none, store) else (do
    task ← required (find_task asset.task_run_id store) m7_resource_not_found
    ensure request_is_valid unexpected
    ensure has_prompt m7_resource_not_found
    let marked =
        save_task (processing_task now task)
          (save_asset (record asset { status = generating }) store)
    (attempt, store') ←
        create_started_attempt now attempt_id work.asset_id work.worker_id work.job marked
    ok (some attempt, store'))

-- What was generated.
pub data Output : Type 0 where
  image :
      (storage_uri : ℕ) → MimeType → (width height cost : ℕ) → (provider_job_id : Option ℕ) → Output
  storyboard : (input_tokens output_tokens cost : ℕ) → Output

abbrev pub report : Output → Report
report (image uri mime_type width height cost provider_job_id) = record {
  provider_job_id = provider_job_id;
  estimated_cost = some cost;
}
report (storyboard input_tokens output_tokens cost) = record {
  provider_job_id = none;
  estimated_cost = some cost;
}

-- The assignments to the asset and to the task.
abbrev pub delivered : ℕ → Output → MediaAsset → MediaAsset
delivered now (image uri mime_type width height cost provider_job_id) asset = record asset {
  status = MediaAssetStatus.ready_for_review;
  storage_uri = some uri;
  mime_type = some mime_type;
  width = some width;
  height = some height;
  estimated_cost = some cost;
  safety_status = SafetyStatus.passed_checks;
  completed_at = some now;
}
delivered now (storyboard input_tokens output_tokens cost) asset = record asset {
  status = MediaAssetStatus.ready_for_review;
  safety_status = SafetyStatus.ready_for_human_review;
  completed_at = some now;
}

abbrev pub completed_task : ℕ → Output → Task → Task
completed_task now (image uri mime_type width height cost provider_job_id) task = record task {
  status = AppliedTaskStatus.completed;
  completed_at = some now;
  duration_ms = some (duration_ms task.started_at now);
  estimated_cost = cost;
}
completed_task now (storyboard input_tokens output_tokens cost) task = record task {
  status = AppliedTaskStatus.completed;
  completed_at = some now;
  duration_ms = some (duration_ms task.started_at now);
  input_tokens = input_tokens;
  output_tokens = output_tokens;
  estimated_cost = cost;
}

-- `if task is not None`: its status is tested, and it is completed.
unfoldable pub complete_task : ℕ → Output → Option ℕ → MediaStore → Result MediaStore
complete_task now output id store = elim (find_task id store) [
  | none ↦ ok store
  | some task ↦
      if is_processing task.status
      then ok (save_task (completed_task now output task) store)
      else err media_attempt_state_conflict
]

-- The attempt is that of the job: still under way, and with the number of the job's attempt.
abbrev pub is_own_attempt : Work → MediaAttempt → Bool
is_own_attempt work attempt =
    is_started attempt.status
    && ((attempt.worker_id == work.worker_id)
        && ((attempt.job_id == work.job.job_id)
            && ((attempt.job_attempt_number == work.job.attempt_count)
                && attempt.attempt_number == work.job.attempt_count)))

abbrev pub is_updated : MediaAttemptUpdateResult → Bool
is_updated updated = true
is_updated _ = false

-- `_finalize_image_success` and `_finalize_storyboard_success`
unfoldable pub finalize : (now attempt_id : ℕ) → Work → Output → Tx MediaStore (Unit {0})
unfolding owns_live_job_lease complete_task mark_terminal stage_media_event
finalize now attempt_id work output store = do
  ensure (owns_live_job_lease now work.worker_id work.job store) media_attempt_lease_lost
  asset ← required (find_asset work.asset_id store) media_attempt_finalization
  attempt ← required (find_attempt attempt_id store) media_attempt_finalization
  ensure (is_own_attempt work attempt) media_attempt_state_conflict
  ensure (is_generating asset.status) media_attempt_state_conflict
  marked ←
      complete_task now output asset.task_run_id (save_asset (delivered now output asset) store)
  let (result, store') =
      mark_terminal now attempt_id work.worker_id MediaAttemptStatus.completed none (report output)
        marked
  ensure (is_updated result) media_attempt_state_conflict
  ok (tt, stage_media_event (media_ready_for_review work.asset_id) store')

-- `_finish_attempt`, with a code that `_safe_media_error` has made
unfoldable pub finish_attempt :
    (now attempt_id worker_id : ℕ) → MediaAttemptStatus → String → Report → MediaStore → MediaStore
unfolding mark_terminal
finish_attempt now attempt_id worker_id status error_code report store =
    (mark_terminal now attempt_id worker_id status (some error_code) report store).1
