-- ===== src/Jobs/Leasing.antt =====
-- What `lease_batch` does to sound tables.
use ai_game.Base.{
  ℕ, ◌≤◌, ◌≡◌, ◌≢◌, refl, Bool, true, false, some, List, arith, length, length-take-le, map, All,
  All-select, All-map, select-All, select_rows, Distinct-select, rows-Found,
}
use ai_game.Errors.{ok, err, job_lease_lost}
use ai_game.Constants.{JobStatus}
use ai_game.Jobs.Tables.{Job, JobDb, job_key, find_job, is_pending}
use ai_game.Jobs.Leases.{owns_live_lease, leasable, leased_before, leased, lease_job, lease_batch}
use ai_game.Jobs.Sound.{Sound, saved, saved-Sound, find-saved, find-saved_other}
use ai_game.Jobs.Steps.{begun, add_attempt-ok, begun-Apart, begun-WellFormed}
use ai_game.Jobs.Endings.{Ending, end_lease, end_lease-told}
use ai_game.Jobs.Growth.{put-Grown}
use ai_game.Jobs.Batches.{Treats, At, Sweeps, for_each-Sweeps}

-- A job that `lease_batch` may take at the time `now`: pending, due, and not asked to stop.
abbrev pub IsDue : ℕ → Job → Type 0
IsDue now job =
    (job.status ≡ JobStatus.pending) × (job.available_at ≤ now) × (job.cancel_requested ≡ false)

due : (now : ℕ) (held : ℕ → Bool) (job : Job) → leasable now held job ≡ true → IsDue now job
unfolding leasable
due now held job h = ground arith

abbrev IsLeasable : ℕ → (ℕ → Bool) → Job → Type 0
IsLeasable now held job = leasable now held job ≡ true

-- The rows that `lease_batch` selects.
abbrev pub chosen : ℕ → (ℕ → Bool) → ℕ → JobDb → List Job
chosen now held limit db = select_rows leased_before (leasable now held) limit db.jobs

module _ (now : ℕ) (held : ℕ → Bool) (worker limit lease_seconds : ℕ) (db : JobDb) where
  lease_one :
      (job : Job) (d : JobDb)
      → Sound d
      → At d job
      → IsLeasable now held job
      → (db1 : JobDb) × (lease_job worker lease_seconds now job d
          ≡ ok (leased worker lease_seconds now job, db1))
        × Treats job (leased worker lease_seconds now job) d db1
  unfolding lease_job leasable
  lease_one job d s at may =
      let wf = s.rows job.job_id job at in
      let waits : is_pending job.status ≡ true = ground (arith, may) in
      let job' = leased worker lease_seconds now job in
      let ts = begun job d.attempts wf waits worker lease_seconds now in
      (
        saved job' ts d,
        rw (add_attempt-ok job d.attempts wf waits worker lease_seconds now) refl,
        record {
          sound =
              saved-Sound job.job_id job job' ts d at refl s
                (begun-Apart job d.attempts wf waits worker lease_seconds now)
                (begun-WellFormed job d.attempts wf waits worker lease_seconds now);
          here = find-saved job.job_id job job' ts d at refl;
          others = λ k h. find-saved_other job.job_id job job' ts d at refl k h;
          grown = put-Grown job.job_id job job' d.jobs at refl refl;
        },
      )

  -- On sound tables `lease_batch` always commits, at most `limit` jobs, each of them pending, due and not
  -- asked to stop. Each is then leased to the worker (running, with one more attempt and an expiry of
  -- `lease_seconds` from now), every other job is as before, and the tables are sound.
  pub lease_batch-Sweeps :
      Sound db
      → (db' : JobDb) × (lease_batch now held worker limit lease_seconds db
          ≡ ok (map (leased worker lease_seconds now) (chosen now held limit db), db'))
        × Sweeps (leased worker lease_seconds now) (chosen now held limit db) db db'
        × (length (chosen now held limit db) ≤ limit)
        × All (IsDue now) (chosen now held limit db)
  unfolding lease_batch
  lease_batch-Sweeps s =
      let may = select-All leased_before (leasable now held) limit db.jobs in
      let (db', e, w) =
        for_each-Sweeps (lease_job worker lease_seconds now) (leased worker lease_seconds now)
          (IsLeasable now held) lease_one (chosen now held limit db) db s
          (Distinct-select job_key leased_before (leasable now held) limit db.jobs s.keys)
          (All-select leased_before (At db) (leasable now held) limit db.jobs
            (rows-Found job_key db.jobs s.keys))
          may in
      (db', e, w, length-take-le limit _, All-map (due now held) (chosen now held limit db) may)

  not_owner :
      (ending : Ending) (t other : ℕ)
      → other ≢ worker
      → (db' : JobDb) → Sound db'
      → (job : Job) → find_job job.job_id db' ≡ some (leased worker lease_seconds now job)
      → end_lease ending t job.job_id other db' ≡ err job_lease_lost
  unfolding owns_live_lease
  not_owner ending t other n db' s job at =
      rw ((end_lease-told ending t job.job_id other db' s).0, at) (ground (arith, n))

  -- A job that `lease_batch` has leased to one worker, on sound tables, is ended by no other worker in the
  -- tables that it leaves: whatever the way and the time, the other is told that the lease is lost.
  pub leased_excludes :
      Sound db
      → (ending : Ending) (t other : ℕ) → other ≢ worker
      → (js : List Job) (db' : JobDb)
      → lease_batch now held worker limit lease_seconds db ≡ ok (js, db')
      → All
          (λ job. end_lease ending t job.job_id other db' ≡ err job_lease_lost)
          (chosen now held limit db)
  leased_excludes s ending t other n js db' e =
      let (db1, e1, w, few, all_due) = lease_batch-Sweeps s in
      let same : db1 ≡ db' = cc (e1, e) in
      rw (← same)
        (All-map (not_owner ending t other n db1 w.sound) (chosen now held limit db) w.treated)
