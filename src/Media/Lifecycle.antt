-- ===== src/Media/Lifecycle.antt =====
-- app/jobs/lifecycle.py: what the end of a job does to the asset or the task that it was for. The branches of
-- experiments and comparisons are left out.
use ai_game.Base.{ℕ, String, Bool, true, false, not, ◌&&◌, none, some, if◌then◌else◌}
use ai_game.Errors.{Result, ok, err, media_attempt_reconciliation}
use ai_game.Constants.{MediaAssetStatus, requested, MediaAttemptStatus, AppliedTaskStatus}
use ai_game.Media.Tables.{
  MediaAsset, Task, MediaStore, find_asset, find_task, save_asset, save_task, change_task,
  duration_ms,
}
use ai_game.Media.Repository.{terminalize_active, has_active_attempt}

abbrev pub is_reviewable : MediaAssetStatus → Bool
is_reviewable MediaAssetStatus.ready_for_review = true
is_reviewable MediaAssetStatus.approved = true
is_reviewable MediaAssetStatus.rejected = true
is_reviewable _ = false

abbrev pub is_closed : AppliedTaskStatus → Bool
is_closed AppliedTaskStatus.completed = true
is_closed AppliedTaskStatus.cancelled = true
is_closed _ = false

abbrev pub task_status : (cancelled : Bool) → AppliedTaskStatus
task_status cancelled = if cancelled then AppliedTaskStatus.cancelled else AppliedTaskStatus.failed

abbrev pub media_status : (cancelled : Bool) → MediaAssetStatus
media_status cancelled = if cancelled then MediaAssetStatus.cancelled else MediaAssetStatus.failed

abbrev pub terminal_attempt_status : (cancelled : Bool) → MediaAttemptStatus
terminal_attempt_status cancelled =
    if cancelled then MediaAttemptStatus.cancelled else MediaAttemptStatus.failed

abbrev pub ended_task : AppliedTaskStatus → String → ℕ → Task → Task
ended_task status error_code now task = record task {
  status = status;
  error_code = some error_code;
  completed_at = some now;
  duration_ms = some (duration_ms task.started_at now);
}

abbrev pub ended_asset : MediaAssetStatus → String → ℕ → MediaAsset → MediaAsset
ended_asset status error_code now asset = record asset {
  status = status;
  error_code = some error_code;
  completed_at = some now;
}

-- `reconcile`, of a data analysis or a document. Every call gives a code.
unfoldable pub reconcile_task : (now : ℕ) → Bool → String → ℕ → MediaStore → MediaStore
reconcile_task now cancelled error_code task_run_id store =
    elim (find_task (some task_run_id) store) [
      | none ↦ store
      | some task ↦
          if is_closed task.status
          then store
          else save_task (ended_task (task_status cancelled) error_code now task) store
    ]

-- `reconcile`, of an image or a storyboard
unfoldable pub reconcile_media : (now : ℕ) → Bool → String → ℕ → MediaStore → MediaStore
unfolding terminalize_active
reconcile_media now cancelled error_code asset_id store =
    let ended = record store {
      attempts =
          terminalize_active now asset_id (terminal_attempt_status cancelled) error_code
            store.attempts;
    } in
    elim (find_asset asset_id store) [
      | none ↦ ended
      | some asset ↦
          if is_reviewable asset.status
          then ended
          else change_task (ended_task (task_status cancelled) error_code now) asset.task_run_id
              (save_asset (ended_asset (media_status cancelled) error_code now asset) ended)
    ]

-- The asset of a handler that left it, or an attempt at it, unfinished
unfoldable pub fail_orphan : ℕ → ℕ → MediaStore → MediaStore
unfolding terminalize_active
fail_orphan now asset_id store =
    let ended = record store {
      attempts =
          terminalize_active now asset_id MediaAttemptStatus.failed "MEDIA_ATTEMPT_ORPHANED"
            store.attempts;
    } in
    elim (find_asset asset_id store) [
      | none ↦ ended
      | some asset ↦
          change_task (ended_task AppliedTaskStatus.failed "MEDIA_ATTEMPT_ORPHANED" now)
            asset.task_run_id
            (save_asset (ended_asset MediaAssetStatus.failed "MEDIA_ATTEMPT_ORPHANED" now asset)
              ended)
    ]

abbrev pub is_consistent : ℕ → MediaStore → Bool
is_consistent asset_id store =
    not (has_active_attempt asset_id store.attempts)
    && elim (find_asset asset_id store) [ none ↦ false | some asset ↦ is_reviewable asset.status ]

-- `ensure_success_consistency`, of an image or a storyboard: what it writes is committed before it raises.
unfoldable pub ensure_success_consistency : ℕ → ℕ → MediaStore → Result (Unit {0}) × MediaStore
unfolding fail_orphan has_active_attempt
ensure_success_consistency now asset_id store =
    if is_consistent asset_id store
    then (ok tt, store)
    else (err media_attempt_reconciliation, fail_orphan now asset_id store)

-- `_reset_task`
abbrev pub reset_task : Task → Task
reset_task task = record task {
  status = AppliedTaskStatus.pending;
  error_code = none;
  completed_at = none;
}

-- `prepare_retry`, of a data analysis or a document, and of an image or a storyboard
unfoldable pub prepare_task_retry : ℕ → MediaStore → MediaStore
prepare_task_retry task_run_id = change_task reset_task (some task_run_id)

unfoldable pub prepare_media_retry : ℕ → MediaStore → MediaStore
prepare_media_retry asset_id store = elim (find_asset asset_id store) [
  | none ↦ store
  | some asset ↦ change_task reset_task asset.task_run_id (
      save_asset (record asset { status = requested; error_code = none; completed_at = none })
        store)
]
