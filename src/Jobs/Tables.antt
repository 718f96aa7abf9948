-- ===== src/Jobs/Tables.antt =====
-- The tables of the job queue (app/database/models.py). Identifiers, worker names and idempotency keys are
-- compared and nothing else, so they are numbers; a time is a number of microseconds. The payload, the
-- tracing columns, message texts and `updated_at` are left out.
use ai_game.Base.{ℕ, String, Bool, true, false, Option, List, ◌*◌, find}
use ai_game.Constants.{JobStatus, JobAttemptStatus}

-- `timedelta(seconds=n)`
abbrev pub seconds : ℕ → ℕ
seconds n = n * 1000000

-- `BackgroundJobModel`
pub record Job : Type 0 where
  pub job_id : ℕ
  pub status : JobStatus
  pub priority : ℕ
  pub attempt_count : ℕ
  pub max_attempts : ℕ
  pub available_at : ℕ
  pub locked_by : Option ℕ
  pub locked_at : Option ℕ
  pub lease_expires_at : Option ℕ
  pub heartbeat_at : Option ℕ
  pub cancel_requested : Bool
  pub idempotency_key : ℕ
  pub created_at : ℕ
  pub started_at : Option ℕ
  pub completed_at : Option ℕ
  pub error_code : Option String

-- `JobAttemptModel`. The worker is `none` for the text `expired-worker`, which stands there when a job was
-- reclaimed that names no worker.
pub record Attempt : Type 0 where
  pub job_id : ℕ
  pub attempt_number : ℕ
  pub worker_id : Option ℕ
  pub status : JobAttemptStatus
  pub started_at : ℕ
  pub completed_at : Option ℕ
  pub duration_ms : Option ℕ
  pub error_code : Option String

pub record JobDb : Type 0 where
  pub jobs : List Job
  pub attempts : List Attempt

abbrev pub job_key : Job → ℕ
job_key job = job.job_id

-- `get_by_id`, `_get_for_update`
abbrev pub find_job : ℕ → JobDb → Option Job
find_job job_id db = find job_key job_id db.jobs

abbrev pub is_pending : JobStatus → Bool
is_pending JobStatus.pending = true
is_pending _ = false

abbrev pub is_running : JobStatus → Bool
is_running JobStatus.running = true
is_running _ = false

-- An attempt that is under way.
abbrev pub is_open : JobAttemptStatus → Bool
is_open JobAttemptStatus.running = true
is_open _ = false
