-- ===== src/Jobs/Leases.antt =====
-- app/repositories/job_repository.py: leases on jobs. The clock is an argument; so is, for `lease_batch`
-- (`skip_locked`), which rows other transactions hold.
use ai_game.Base.{
  ℕ, ◌+◌, Bool, true, false, not, ◌&&◌, ◌||◌, Option, none, some, List, [], ◌∷◌, ◌==◌, ltb, leb,
  if◌then◌else◌, put, select_rows,
}
use ai_game.Errors.{Result, ok, ◌>>=◌, ◌>>◌, ensure, required, Tx, job_lease_lost}
use ai_game.Constants.{JobStatus, JobAttemptStatus}
use ai_game.Jobs.Tables.{seconds, Job, Attempt, JobDb, job_key, find_job, is_pending, is_running}
use ai_game.Jobs.Attempts.{add_attempt}

-- `create`: the row of a new job, with the columns' defaults. `add_job` has the unique key of the table.
abbrev pub new_job : ℕ → ℕ → ℕ → ℕ → ℕ → ℕ → Job
new_job now job_id priority max_attempts available_at idempotency_key = record {
  job_id = job_id;
  status = JobStatus.pending;
  priority = priority;
  attempt_count = 0;
  max_attempts = max_attempts;
  available_at = available_at;
  locked_by = none;
  locked_at = none;
  lease_expires_at = none;
  heartbeat_at = none;
  cancel_requested = false;
  idempotency_key = idempotency_key;
  created_at = now;
  started_at = none;
  completed_at = none;
  error_code = none;
}

abbrev pub save_job : Job → JobDb → JobDb
save_job job db = record db { jobs = put job_key job db.jobs }

-- `_clear_lease`
abbrev pub clear_lease : Job → Job
clear_lease job = record job {
  locked_by = none;
  locked_at = none;
  lease_expires_at = none;
  heartbeat_at = none;
}

abbrev pub is_worker : ℕ → Option ℕ → Bool
is_worker worker_id none = false
is_worker worker_id (some w) = w == worker_id

abbrev pub is_later : ℕ → Option ℕ → Bool
is_later now none = false
is_later now (some t) = ltb now t

-- `_owns_live_lease`
unfoldable pub owns_live_lease : Job → ℕ → ℕ → Bool
owns_live_lease job worker_id now =
    is_running job.status
    && (is_worker worker_id job.locked_by && is_later now job.lease_expires_at)

-- `_required_live_lease`
unfoldable pub required_live_lease : ℕ → ℕ → ℕ → JobDb → Result Job
unfolding owns_live_lease
required_live_lease job_id worker_id now db = do
  job ← required (find_job job_id db) job_lease_lost
  ensure (owns_live_lease job worker_id now) job_lease_lost
  ok job

-- The `WHERE` clause of `lease_batch`.
unfoldable pub leasable : ℕ → (ℕ → Bool) → Job → Bool
leasable now held job =
    is_pending job.status
    && (leb job.available_at now && (not job.cancel_requested && not (held job.job_id)))

-- The `ORDER BY` clause of `lease_batch`.
unfoldable pub leased_before : Job → Job → Bool
leased_before a b =
    ltb b.priority a.priority
    || ((a.priority == b.priority)
        && (ltb a.available_at b.available_at
            || ((a.available_at == b.available_at)
                && (ltb a.created_at b.created_at
                    || ((a.created_at == b.created_at) && leb a.job_id b.job_id)))))

abbrev pub started : ℕ → Option ℕ → Option ℕ
started now none = some now
started now (some t) = some t

abbrev pub leased : ℕ → ℕ → ℕ → Job → Job
leased worker_id lease_seconds now job = record job {
  status = JobStatus.running;
  locked_by = some worker_id;
  locked_at = some now;
  heartbeat_at = some now;
  lease_expires_at = some (now + seconds lease_seconds);
  started_at = started now job.started_at;
  attempt_count = job.attempt_count + 1;
  error_code = none;
}

abbrev pub new_attempt : ℕ → ℕ → Job → Attempt
new_attempt worker_id now job = record {
  job_id = job.job_id;
  attempt_number = job.attempt_count;
  worker_id = some worker_id;
  status = JobAttemptStatus.running;
  started_at = now;
  completed_at = none;
  duration_ms = none;
  error_code = none;
}

-- The body of the loop of `lease_batch`.
unfoldable pub lease_job : ℕ → ℕ → ℕ → Job → Tx JobDb Job
lease_job worker_id lease_seconds now job db = do
  let job' = leased worker_id lease_seconds now job
  attempts ← add_attempt (new_attempt worker_id now job') db.attempts
  ok (job', record (save_job job' db) { attempts = attempts })

-- A loop over the selected rows.
unfoldable pub for_each : (Job → Tx JobDb Job) → List Job → Tx JobDb (List Job)
for_each body [] db = ok ([], db)
for_each body (job ∷ rest) db = do
  (job', db1) ← body job db
  (rest', db2) ← for_each body rest db1
  ok (job' ∷ rest', db2)

unfoldable pub lease_batch : ℕ → (ℕ → Bool) → ℕ → ℕ → ℕ → Tx JobDb (List Job)
unfolding leasable leased_before lease_job for_each
lease_batch now held worker_id limit lease_seconds db =
    for_each (lease_job worker_id lease_seconds now)
      (select_rows leased_before (leasable now held) limit db.jobs) db

abbrev pub renewed : ℕ → ℕ → Job → Job
renewed now lease_seconds job = record job {
  heartbeat_at = some now;
  lease_expires_at = some (now + seconds lease_seconds);
}

-- `heartbeat`
unfoldable pub heartbeat : ℕ → ℕ → ℕ → ℕ → JobDb → Bool × JobDb
unfolding owns_live_lease
heartbeat now job_id worker_id lease_seconds db = elim (find_job job_id db) [
  | none ↦ (false, db)
  | some job ↦
      if owns_live_lease job worker_id now
      then (true, save_job (renewed now lease_seconds job) db)
      else (false, db)
]
