-- ===== src/Jobs/Queue.antt =====
-- app/jobs/queue.py: `JobQueue.enqueue`. The idempotency key is an argument, as it is given or hashed from
-- the payload; so is the identifier that the new row is given.
use ai_game.Base.{ℕ, Option, none, some, List, [], ◌∷◌, ◌++◌, ◌==◌, ltb, if◌then◌else◌, is_some}
use ai_game.Errors.{ok, err, Tx, persistence}
use ai_game.Jobs.Retry.{min}
use ai_game.Jobs.Tables.{Job, JobDb, find_job}
use ai_game.Jobs.Leases.{new_job}

-- `find_by_idempotency_key`
abbrev pub find_by_idempotency_key : ℕ → List Job → Option Job
find_by_idempotency_key key [] = none
find_by_idempotency_key key (job ∷ rest) =
    if key == job.idempotency_key then some job else find_by_idempotency_key key rest

-- `given or default`, for a number and for a time.
abbrev pub positive_or : Option ℕ → ℕ → ℕ
positive_or none default = default
positive_or (some n) default = if ltb 0 n then n else default

abbrev time_or : Option ℕ → ℕ → ℕ
time_or none default = default
time_or (some t) default = t

pub record JobRequest : Type 0 where
  pub job_id : ℕ
  pub idempotency_key : ℕ
  pub priority : ℕ
  pub max_attempts : Option ℕ
  pub available_at : Option ℕ

-- The row that `create` adds. (A negative priority becomes 0, and is that number here.)
abbrev pub requested_job : ℕ → ℕ → JobRequest → Job
requested_job job_max_attempts now q =
    new_job now q.job_id (min q.priority 100) (positive_or q.max_attempts job_max_attempts)
      (time_or q.available_at now) q.idempotency_key

-- `enqueue`: a request whose key is there already returns the job that has it.
unfoldable pub enqueue : ℕ → ℕ → JobRequest → Tx JobDb Job
enqueue job_max_attempts now q db = elim (find_by_idempotency_key q.idempotency_key db.jobs) [
  | some duplicate ↦ ok (duplicate, db)
  | none ↦
      let job = requested_job job_max_attempts now q in
      if is_some (find_job q.job_id db)
      then err persistence
      else ok (job, record db { jobs = db.jobs ++ job ∷ [] })
]
