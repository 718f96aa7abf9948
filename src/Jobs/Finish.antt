-- ===== src/Jobs/Finish.antt =====
-- app/repositories/job_repository.py: how a job ends, is cancelled, retried or reclaimed. The clock is an
-- argument; so is, for `reclaim_stale` (`skip_locked`), which rows other transactions hold.
use ai_game.Base.{
  ℕ, ◌+◌, String, Bool, true, false, not, ◌&&◌, ◌||◌, Option, none, some, List, ◌==◌, ltb, leb,
  if◌then◌else◌, select_rows,
}
use ai_game.Errors.{Result, ok, err, ◌>>=◌, ◌>>◌, ensure, required, Tx, job_conflict}
use ai_game.Constants.{JobStatus, JobAttemptStatus}
use ai_game.Jobs.Retry.{retry_delay_seconds}
use ai_game.Jobs.Tables.{seconds, Job, JobDb, find_job, is_running}
use ai_game.Jobs.Attempts.{finish_attempt}
use ai_game.Jobs.Leases.{save_job, clear_lease, is_worker, required_live_lease, for_each}

-- `complete`
unfoldable pub complete : ℕ → ℕ → ℕ → Tx JobDb Job
complete now job_id worker_id db = do
  job ← required_live_lease job_id worker_id now db
  let job' = clear_lease (record job { status = JobStatus.succeeded; completed_at = some now })
  attempts ← finish_attempt job' (some worker_id) JobAttemptStatus.succeeded now none db.attempts
  ok (job', record (save_job job' db) { attempts = attempts })

-- What `fail` and `reclaim_stale` do with a job whose attempt has failed.
abbrev pub failed : ℕ → String → Bool → ℕ → ℕ → Job → Job
failed now error_code retryable retry_base_seconds retry_max_seconds job = clear_lease (
    if retryable && ltb job.attempt_count job.max_attempts
    then record job {
      error_code = some error_code;
      status = JobStatus.pending;
      available_at =
          now
          + seconds (retry_delay_seconds job.attempt_count retry_base_seconds retry_max_seconds);
    }
    else record job {
      error_code = some error_code;
      status = JobStatus.dead_letter;
      completed_at = some now;
    })

-- `fail`
unfoldable pub fail : ℕ → ℕ → ℕ → String → Bool → ℕ → ℕ → Tx JobDb Job
fail now job_id worker_id error_code retryable retry_base_seconds retry_max_seconds db = do
  job ← required_live_lease job_id worker_id now db
  attempts ←
      finish_attempt job (some worker_id) JobAttemptStatus.failed now (some error_code) db.attempts
  let job' = failed now error_code retryable retry_base_seconds retry_max_seconds job
  ok (job', record (save_job job' db) { attempts = attempts })

-- `mark_cancelled`
unfoldable pub mark_cancelled : ℕ → ℕ → ℕ → Tx JobDb Job
mark_cancelled now job_id worker_id db = do
  job ← required_live_lease job_id worker_id now db
  let job' = clear_lease (record job {
    status = JobStatus.cancelled;
    cancel_requested = true;
    completed_at = some now;
  })
  attempts ← finish_attempt job' (some worker_id) JobAttemptStatus.cancelled now none db.attempts
  ok (job', record (save_job job' db) { attempts = attempts })

-- The branches of `cancel`.
unfoldable pub cancelled_row : ℕ → Job → Result Job
cancelled_row now job = elim job.status [
  | JobStatus.pending ↦ ok (record job {
    status = JobStatus.cancelled;
    cancel_requested = true;
    completed_at = some now;
  })
  | JobStatus.running ↦ ok (record job { cancel_requested = true })
  | JobStatus.cancelled ↦ ok job
  | JobStatus.succeeded ↦ ok job
  | _ ↦ err job_conflict
]

-- `cancel`
unfoldable pub cancel : ℕ → ℕ → Tx JobDb Job
unfolding cancelled_row
cancel now job_id db = do
  job ← required (find_job job_id db) job_conflict
  job' ← cancelled_row now job
  ok (job', save_job job' db)

abbrev pub is_retryable : JobStatus → Bool
is_retryable JobStatus.failed = true
is_retryable JobStatus.dead_letter = true
is_retryable JobStatus.cancelled = true
is_retryable _ = false

-- The assignments of `retry`.
abbrev pub retried : ℕ → Job → Job
retried now job = clear_lease (record job {
  status = JobStatus.pending;
  cancel_requested = false;
  available_at = now;
  completed_at = none;
  error_code = none;
  max_attempts =
      if leb job.max_attempts job.attempt_count then job.attempt_count + 1 else job.max_attempts;
})

-- `retry`
unfoldable pub retry : ℕ → ℕ → Tx JobDb Job
retry now job_id db = do
  job ← required (find_job job_id db) job_conflict
  ensure (is_retryable job.status) job_conflict
  ok (retried now job, save_job (retried now job) db)

abbrev pub has_expired : ℕ → Option ℕ → Bool
has_expired now none = false
has_expired now (some t) = leb t now

-- The `WHERE` clause of `reclaim_stale`.
unfoldable pub is_stale : ℕ → (ℕ → Bool) → Job → Bool
is_stale now held job =
    is_running job.status && (has_expired now job.lease_expires_at && not (held job.job_id))

abbrev expiry : Option ℕ → ℕ
expiry none = 0
expiry (some t) = t

-- The `ORDER BY` clause of `reclaim_stale`, on rows with an expiry.
unfoldable pub expires_before : Job → Job → Bool
expires_before a b =
    ltb (expiry a.lease_expires_at) (expiry b.lease_expires_at)
    || ((expiry a.lease_expires_at == expiry b.lease_expires_at) && leb a.job_id b.job_id)

-- The body of the loop of `reclaim_stale`.
unfoldable pub reclaim_job : ℕ → ℕ → ℕ → Job → Tx JobDb Job
reclaim_job retry_base_seconds retry_max_seconds now job db = do
  attempts ←
      finish_attempt job job.locked_by JobAttemptStatus.failed now (some "JOB_LEASE_EXPIRED")
        db.attempts
  let job' = failed now "JOB_LEASE_EXPIRED" true retry_base_seconds retry_max_seconds job
  ok (job', record (save_job job' db) { attempts = attempts })

unfoldable pub reclaim_stale : ℕ → (ℕ → Bool) → ℕ → ℕ → ℕ → Tx JobDb (List Job)
unfolding is_stale expires_before reclaim_job for_each
reclaim_stale now held limit retry_base_seconds retry_max_seconds db =
    for_each (reclaim_job retry_base_seconds retry_max_seconds now)
      (select_rows expires_before (is_stale now held) limit db.jobs) db

-- `cancellation_requested`
unfoldable pub cancellation_requested : ℕ → ℕ → JobDb → Bool
cancellation_requested job_id worker_id db = elim (find_job job_id db) [
  | none ↦ false
  | some job ↦ is_running job.status && (is_worker worker_id job.locked_by && job.cancel_requested)
]
