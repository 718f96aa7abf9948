-- ===== src/Media/Worker.antt =====
-- app/jobs/worker.py: `_process` for the jobs of images and storyboards, of which the handler does what
-- Media/Processor says. The heartbeats are calls on the queue that others make meanwhile.
use ai_game.Base.{ℕ, String, Bool, true, false, if◌then◌else◌}
use ai_game.Errors.{
  Error, Result, ok, err, transact, job_cancelled, task_cancelled, media_attempt_lease_lost,
}
use ai_game.Constants.{JobStatus, JobErrorClassification, retryable, non_retryable}
use ai_game.Actions.Finish.{is_foreign}
use ai_game.Jobs.Retry.{classify_job_error}
use ai_game.Jobs.Tables.{Job}
use ai_game.Jobs.Finish.{complete, fail, mark_cancelled}
use ai_game.Media.Tables.{MediaStore}
use ai_game.Media.Attempts.{Work}
use ai_game.Media.Lifecycle.{reconcile_media, ensure_success_consistency}

-- The settings of the worker, the texts of error codes, the times of its sessions, and whether a
-- heartbeat found the lease lost or the job to be cancelled.
pub record WorkerCall : Type 0 where
  pub error_code : Error → String
  pub job_retry_base_seconds : ℕ
  pub job_retry_max_seconds : ℕ
  pub checked_at : ℕ
  pub ended_at : ℕ
  pub reconciled_at : ℕ
  pub lease_lost : Bool
  pub cancellation : Bool

abbrev is_retryable_class : JobErrorClassification → Bool
is_retryable_class retryable = true
is_retryable_class non_retryable = false

-- `_is_retryable`
abbrev pub is_retryable : Error → Bool
unfolding classify_job_error
is_retryable e = is_retryable_class (classify_job_error e)

-- A transaction on the job queue.
abbrev pub on_queue : Result Job × ai_game.Jobs.Tables.JobDb → MediaStore → Result Job × MediaStore
on_queue (result, queue) store = (result, record store { queue = queue })

abbrev pub is_dead : JobStatus → Bool
is_dead JobStatus.dead_letter = true
is_dead _ = false

abbrev pub job_error_code : (Error → String) → Error → String
job_error_code error_code e = if is_foreign e then "JOB_HANDLER_ERROR" else error_code e

-- The rest of `_fail`
abbrev pub reconcile_dead :
    WorkerCall → Work → Error → Result Job × MediaStore → Result (Unit {0}) × MediaStore
reconcile_dead w work e (err raised, store) = (err raised, store)
reconcile_dead w work e (ok job, store) =
    if is_dead job.status
    then (
      ok tt,
      reconcile_media w.reconciled_at false (job_error_code w.error_code e) work.asset_id store,
    )
    else (ok tt, store)

-- `_fail`
unfoldable pub fail_job : WorkerCall → Work → Error → MediaStore → Result (Unit {0}) × MediaStore
unfolding is_retryable
fail_job w work e store = reconcile_dead w work e (
    on_queue
      (transact
        (fail w.ended_at work.job.job_id work.worker_id (job_error_code w.error_code e)
          (is_retryable e) w.job_retry_base_seconds w.job_retry_max_seconds)
        store.queue)
      store)

abbrev pub reconcile_cancelled :
    WorkerCall → Work → Result Job × MediaStore → Result (Unit {0}) × MediaStore
reconcile_cancelled w work (err raised, store) = (err raised, store)
reconcile_cancelled w work (ok job, store) =
    (ok tt, reconcile_media w.reconciled_at true "JOB_CANCELLED" work.asset_id store)

-- `_cancel`
unfoldable pub cancel_job : WorkerCall → Work → MediaStore → Result (Unit {0}) × MediaStore
cancel_job w work store = reconcile_cancelled w work (
    on_queue (transact (mark_cancelled w.ended_at work.job.job_id work.worker_id) store.queue)
      store)

-- The `except` clauses.
unfoldable pub except_job : WorkerCall → Work → Error → MediaStore → Result (Unit {0}) × MediaStore
unfolding fail_job cancel_job
except_job w work job_cancelled store = cancel_job w work store
except_job w work task_cancelled store =
    if w.cancellation
    then cancel_job w work store
    else if w.lease_lost
    then (ok tt, store)
    else (err task_cancelled, store)
except_job w work media_attempt_lease_lost store = (ok tt, store)
except_job w work e store = if w.lease_lost then (ok tt, store) else fail_job w work e store

abbrev pub completed_or :
    WorkerCall → Work → Result Job × MediaStore → Result (Unit {0}) × MediaStore
completed_or w work (ok job, store) = (ok tt, store)
completed_or w work (err e, store) = except_job w work e store

abbrev pub checked_or :
    WorkerCall → Work → Result (Unit {0}) × MediaStore → Result (Unit {0}) × MediaStore
checked_or w work (err e, store) = except_job w work e store
checked_or w work (ok done, store) =
    completed_or w work
      (on_queue (transact (complete w.ended_at work.job.job_id work.worker_id) store.queue) store)

-- `_process`, after the handler.
unfoldable pub process :
    WorkerCall → Work → Result (Unit {0}) × MediaStore → Result (Unit {0}) × MediaStore
unfolding except_job ensure_success_consistency
process w work (err e, store) = except_job w work e store
process w work (ok done, store) =
    if w.lease_lost
    then (ok tt, store)
    else checked_or w work (ensure_success_consistency w.checked_at work.asset_id store)
