-- ===== src/Jobs/Fencing.antt =====
-- Who may end a job: the three operations against an independent description of a lease.
use ai_game.Base.{
  ℕ, ◌≡◌, refl, ◌∙◌, Bool, false, ◌&&◌, Option, none, some, arith, ◌==◌, ltb, if◌then◌else◌,
}
use ai_game.Errors.{Result, ok, err, job_lease_lost}
use ai_game.Constants.{JobStatus}
use ai_game.Jobs.Tables.{Job, JobDb, find_job}
use ai_game.Jobs.Leases.{owns_live_lease}
use ai_game.Jobs.Sound.{Sound, EndsSound}
use ai_game.Jobs.Endings.{Ending, end_lease, end_lease-told, told, ended_row, ended_db}

-- A lease holds for its worker, on a running job, until it expires.
abbrev pub lease_holds : JobStatus → Option ℕ → Option ℕ → ℕ → ℕ → Bool
lease_holds JobStatus.running (some holder) (some expires_at) worker now =
    (holder == worker) && ltb now expires_at
lease_holds _ _ _ worker now = false

owns-holds :
    (job : Job) (worker now : ℕ)
    → owns_live_lease job worker now
      ≡ lease_holds job.status job.locked_by job.lease_expires_at worker now
unfolding owns_live_lease
owns-holds job worker now = ground arith

-- What a worker that ends a job is told, by the row that it names.
abbrev pub fenced : Ending → ℕ → ℕ → JobDb → Option Job → Result (Job × JobDb)
fenced ending now worker db none = err job_lease_lost
fenced ending now worker db (some job) =
    if lease_holds job.status job.locked_by job.lease_expires_at worker now
    then ok (ended_row ending now job, ended_db ending now worker job db)
    else err job_lease_lost

told-fenced :
    (ending : Ending) (now worker : ℕ) (db : JobDb) (found : Option Job)
    → told ending now worker db found ≡ fenced ending now worker db found
told-fenced ending now worker db none = refl
told-fenced ending now worker db (some job) = rw (owns-holds job worker now) refl

-- In sound tables `complete`, `fail` and `mark_cancelled` end the job exactly for the worker that holds its
-- lease and before the lease expires; any other worker, a late one, or one that names no job is told that
-- the lease is lost. The attempt that they close is always found, and an end leaves sound tables.
pub end_lease-fenced :
    (ending : Ending) (now i worker : ℕ) (db : JobDb)
    → Sound db
    → (end_lease ending now i worker db ≡ fenced ending now worker db (find_job i db))
      × EndsSound (end_lease ending now i worker db)
end_lease-fenced ending now i worker db s =
    let (exact, sound) = end_lease-told ending now i worker db s in
    (exact ∙ told-fenced ending now worker db (find_job i db), sound)
