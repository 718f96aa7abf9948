-- ===== src/Jobs/Endings.antt =====
-- The three operations by which a worker ends its lease, as one family.
use ai_game.Base.{
  ℕ, ◌≡◌, refl, String, Bool, true, false, Option, none, some, arith, if◌then◌else◌, Bool-cases,
  Option-cases, inl, inr,
}
use ai_game.Errors.{Result, ok, err, Tx, job_lease_lost}
use ai_game.Constants.{JobStatus, JobAttemptStatus}
use ai_game.Jobs.Tables.{Job, JobDb, find_job, is_open, is_running}
use ai_game.Jobs.Attempts.{rewrite_active, closed, finish_attempt}
use ai_game.Jobs.Leases.{clear_lease, owns_live_lease, required_live_lease}
use ai_game.Jobs.Finish.{complete, failed, fail, mark_cancelled}
use ai_game.Jobs.Sound.{
  Sound, EndsSound, saved, saved-Sound, found_self, lease_matches, within_budget,
}
use ai_game.Jobs.Steps.{finish_attempt-ok, ended-Apart, ended-WellFormed}

pub data Ending : Type 0 where
  completed : Ending
  failing : (error_code : String) (retryable : Bool) (base_seconds max_seconds : ℕ) → Ending
  cancelling : Ending

unfoldable pub end_lease : Ending → ℕ → ℕ → ℕ → Tx JobDb Job
end_lease completed now i worker db = complete now i worker db
end_lease (failing code retryable base max) now i worker db =
    fail now i worker code retryable base max db
end_lease cancelling now i worker db = mark_cancelled now i worker db

-- The row of a job whose attempt ended so.
abbrev pub ended_row : Ending → ℕ → Job → Job
ended_row completed now job =
    clear_lease (record job { status = JobStatus.succeeded; completed_at = some now })
ended_row (failing code retryable base max) now job = failed now code retryable base max job
ended_row cancelling now job =
    clear_lease (record job {
      status = JobStatus.cancelled;
      cancel_requested = true;
      completed_at = some now;
    })

abbrev pub ended_status : Ending → JobAttemptStatus
ended_status completed = JobAttemptStatus.succeeded
ended_status (failing code retryable base max) = JobAttemptStatus.failed
ended_status cancelling = JobAttemptStatus.cancelled

abbrev pub ended_code : Ending → Option String
ended_code (failing code retryable base max) = some code
ended_code _ = none

-- The tables after a lease of `job` ended.
abbrev pub ended_db : Ending → ℕ → ℕ → Job → JobDb → JobDb
ended_db ending now worker job db =
    saved (ended_row ending now job)
      (rewrite_active job.job_id job.attempt_count
        (closed (some worker) (ended_status ending) now (ended_code ending)) db.attempts)
      db

shut : (ending : Ending) → is_open (ended_status ending) ≡ false
shut completed = refl
shut _ = refl

pub row_id :
    (ending : Ending) (now : ℕ) (job : Job) → (ended_row ending now job).job_id ≡ job.job_id
row_id completed now job = refl
row_id cancelling now job = refl
row_id (failing code retryable base max) now job = ground arith

pub row_key :
    (ending : Ending) (now : ℕ) (job : Job)
    → (ended_row ending now job).idempotency_key ≡ job.idempotency_key
row_key completed now job = refl
row_key cancelling now job = refl
row_key (failing code retryable base max) now job = ground arith

pub row_count :
    (ending : Ending) (now : ℕ) (job : Job)
    → (ended_row ending now job).attempt_count ≡ job.attempt_count
row_count completed now job = refl
row_count cancelling now job = refl
row_count (failing code retryable base max) now job = ground arith

pub row_idle :
    (ending : Ending) (now : ℕ) (job : Job) → is_running (ended_row ending now job).status ≡ false
row_idle completed now job = refl
row_idle cancelling now job = refl
row_idle (failing code retryable base max) now job = ground arith

pub row_lease :
    (ending : Ending) (now : ℕ) (job : Job) → lease_matches (ended_row ending now job) ≡ true
row_lease completed now job = refl
row_lease cancelling now job = refl
row_lease (failing code retryable base max) now job = ground arith

pub row_budget :
    (ending : Ending) (now : ℕ) (job : Job)
    → is_running job.status ≡ true
    → within_budget job ≡ true
    → within_budget (ended_row ending now job) ≡ true
row_budget completed now job r b = ground arith
row_budget cancelling now job r b = ground arith
row_budget (failing code retryable base max) now job r b = ground arith

leased_by :
    (now i worker : ℕ) (db : JobDb) (job : Job)
    → find_job i db ≡ some job
    → required_live_lease i worker now db
      ≡ (if owns_live_lease job worker now then ok job else err job_lease_lost)
unfolding required_live_lease
leased_by now i worker db job f = ground (arith, f)

ended_by :
    (ending : Ending) (now i worker : ℕ) (db : JobDb) (job : Job)
    → find_job i db ≡ some job
    → owns_live_lease job worker now ≡ true
    → finish_attempt job (some worker) (ended_status ending) now (ended_code ending) db.attempts
      ≡ ok (
          rewrite_active job.job_id job.attempt_count
            (closed (some worker) (ended_status ending) now (ended_code ending))
            db.attempts)
    → end_lease ending now i worker db
      ≡ ok (ended_row ending now job, ended_db ending now worker job db)
unfolding end_lease complete fail mark_cancelled finish_attempt
ended_by completed now i worker db job f owns fin =
    ground (arith, leased_by now i worker db job f, owns, fin)
ended_by cancelling now i worker db job f owns fin =
    ground (arith, leased_by now i worker db job f, owns, fin)
ended_by (failing code retryable base max) now i worker db job f owns fin =
    rw (leased_by now i worker db job f, owns, fin) refl

lost :
    (ending : Ending) (now i worker : ℕ) (db : JobDb) (job : Job)
    → find_job i db ≡ some job
    → owns_live_lease job worker now ≡ false
    → end_lease ending now i worker db ≡ err job_lease_lost
unfolding end_lease complete fail mark_cancelled
lost completed now i worker db job f h = ground (arith, leased_by now i worker db job f, h)
lost cancelling now i worker db job f h = ground (arith, leased_by now i worker db job f, h)
lost (failing code retryable base max) now i worker db job f h =
    ground (arith, leased_by now i worker db job f, h)

missing :
    (ending : Ending) (now i worker : ℕ) (db : JobDb)
    → find_job i db ≡ none
    → end_lease ending now i worker db ≡ err job_lease_lost
unfolding end_lease complete fail mark_cancelled required_live_lease
missing completed now i worker db f = ground (arith, f)
missing cancelling now i worker db f = ground (arith, f)
missing (failing code retryable base max) now i worker db f = ground (arith, f)

owner_runs :
    (job : Job) (worker now : ℕ)
    → owns_live_lease job worker now ≡ true
    → is_running job.status ≡ true
unfolding owns_live_lease
owner_runs job worker now h = ground arith

module _ (ending : Ending) (now i worker : ℕ) (db : JobDb) (s : Sound db) where
  module _ (job : Job) (f : find_job i db ≡ some job) (runs : is_running job.status ≡ true) where
    pub ended_db-Sound : Sound (ended_db ending now worker job db)
    ended_db-Sound =
        let wf = s.rows i job f in
        saved-Sound job.job_id job (ended_row ending now job) _ db (found_self i job db f)
          (row_id ending now job) s
          (ended-Apart job (ended_row ending now job) db.attempts wf runs (some worker)
            (ended_status ending) now (ended_code ending) (shut ending))
          (ended-WellFormed job (ended_row ending now job) db.attempts wf runs (some worker)
            (ended_status ending) now (ended_code ending) (shut ending) (row_id ending now job)
            (row_count ending now job) (row_idle ending now job) (row_lease ending now job)
            (row_budget ending now job runs wf.budget))

    finished :
        owns_live_lease job worker now ≡ true
        → end_lease ending now i worker db
          ≡ ok (ended_row ending now job, ended_db ending now worker job db)
    finished owns = ended_by ending now i worker db job f owns (
        finish_attempt-ok job (ended_row ending now job) db.attempts (s.rows i job f) runs
          (some worker) (ended_status ending) now (ended_code ending) (shut ending))

-- What a worker that ends its lease is told, by the row that it names.
abbrev pub told : Ending → ℕ → ℕ → JobDb → Option Job → Result (Job × JobDb)
told ending now worker db none = err job_lease_lost
told ending now worker db (some job) =
    if owns_live_lease job worker now
    then ok (ended_row ending now job, ended_db ending now worker job db)
    else err job_lease_lost

-- On every branch, under the invariant.
pub end_lease-told :
    (ending : Ending) (now i worker : ℕ) (db : JobDb) (s : Sound db)
    → (end_lease ending now i worker db ≡ told ending now worker db (find_job i db))
      × EndsSound (end_lease ending now i worker db)
end_lease-told ending now i worker db s = elim (Option-cases (find_job i db)) [
  | inl none_there ↦ rw (missing ending now i worker db none_there, none_there) (refl, tt)
  | inr (job, f) ↦ elim (Bool-cases (owns_live_lease job worker now)) [
    | inl owns ↦
        let runs = owner_runs job worker now owns in
        rw (finished ending now i worker db s job f runs owns, f, owns)
          (refl, ended_db-Sound ending now i worker db s job f runs)
    | inr other ↦ rw (lost ending now i worker db job f other, f, other) (refl, tt)
  ]
]
