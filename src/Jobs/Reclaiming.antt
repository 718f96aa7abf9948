-- ===== src/Jobs/Reclaiming.antt =====
-- What `reclaim_stale` does to sound tables, and to the workers that held the leases.
use ai_game.Base.{
  ℕ, ◌≤◌, ◌≡◌, refl, Bool, true, some, List, arith, length, length-take-le, map, All, All-select,
  All-map, select-All, select_rows, Distinct-select, rows-Found,
}
use ai_game.Errors.{ok, err, job_lease_lost}
use ai_game.Constants.{JobStatus, JobAttemptStatus}
use ai_game.Jobs.Tables.{Job, JobDb, job_key, find_job, is_running}
use ai_game.Jobs.Attempts.{rewrite_active, closed}
use ai_game.Jobs.Leases.{owns_live_lease}
use ai_game.Jobs.Finish.{failed, has_expired, is_stale, expires_before, reclaim_job, reclaim_stale}
use ai_game.Jobs.Sound.{Sound, saved, saved-Sound, find-saved, find-saved_other}
use ai_game.Jobs.Steps.{finish_attempt-ok, ended-Apart, ended-WellFormed}
use ai_game.Jobs.Endings.{
  Ending, end_lease, end_lease-told, failing, row_id, row_key, row_count, row_idle, row_lease,
  row_budget,
}
use ai_game.Jobs.Growth.{put-Grown}
use ai_game.Jobs.Batches.{Treats, At, Sweeps, for_each-Sweeps}

-- The rows that `reclaim_stale` selects.
abbrev pub stale : ℕ → (ℕ → Bool) → ℕ → JobDb → List Job
stale now held limit db = select_rows expires_before (is_stale now held) limit db.jobs

abbrev pub reclaimed : ℕ → ℕ → ℕ → Job → Job
reclaimed now base max = failed now "JOB_LEASE_EXPIRED" true base max

-- A running job whose lease has expired.
abbrev pub IsAbandoned : ℕ → Job → Type 0
IsAbandoned now job =
    (job.status ≡ JobStatus.running) × (has_expired now job.lease_expires_at ≡ true)

abandoned :
    (now : ℕ) (held : ℕ → Bool) (job : Job) → is_stale now held job ≡ true → IsAbandoned now job
unfolding is_stale
abandoned now held job h = ground arith

module _ (now : ℕ) (held : ℕ → Bool) (limit base max : ℕ) (db : JobDb) where
  abbrev expired : Ending
  expired = failing "JOB_LEASE_EXPIRED" true base max

  reclaim_one :
      (job : Job) (d : JobDb)
      → Sound d
      → At d job
      → is_stale now held job ≡ true
      → (db1 : JobDb) × (reclaim_job base max now job d ≡ ok ((reclaimed now base max) job, db1))
        × Treats job (reclaimed now base max job) d db1
  unfolding reclaim_job is_stale
  reclaim_one job d s at may =
      let wf = s.rows job.job_id job at in
      let runs : is_running job.status ≡ true = ground (arith, may) in
      let ts =
        rewrite_active job.job_id job.attempt_count
          (closed job.locked_by JobAttemptStatus.failed now (some "JOB_LEASE_EXPIRED"))
          d.attempts in
      (
        saved (reclaimed now base max job) ts d,
        rw
            (finish_attempt-ok job (reclaimed now base max job) d.attempts wf runs job.locked_by
              JobAttemptStatus.failed now (some "JOB_LEASE_EXPIRED") refl)
            refl,
        record {
          sound =
              saved-Sound job.job_id job (reclaimed now base max job) ts d at
                (row_id expired now job) s
                (ended-Apart job (reclaimed now base max job) d.attempts wf runs job.locked_by
                  JobAttemptStatus.failed now (some "JOB_LEASE_EXPIRED") refl)
                (ended-WellFormed job (reclaimed now base max job) d.attempts wf runs job.locked_by
                  JobAttemptStatus.failed now (some "JOB_LEASE_EXPIRED") refl
                  (row_id expired now job) (row_count expired now job) (row_idle expired now job)
                  (row_lease expired now job) (row_budget expired now job runs wf.budget));
          here =
              find-saved job.job_id job (reclaimed now base max job) ts d at
                (row_id expired now job);
          others = λ k h.
              find-saved_other job.job_id job (reclaimed now base max job) ts d at
                (row_id expired now job) k h;
          grown =
              put-Grown job.job_id job (reclaimed now base max job) d.jobs at
                (row_id expired now job) (row_key expired now job);
        },
      )

  -- On sound tables `reclaim_stale` always commits, at most `limit` jobs, each of them running with an
  -- expired lease. Each then waits for its next attempt or, having no attempt left, is dead; every other
  -- job is as before, and the tables are sound.
  pub reclaim_stale-Sweeps :
      Sound db
      → (db' : JobDb) × (reclaim_stale now held limit base max db
          ≡ ok (map (reclaimed now base max) (stale now held limit db), db'))
        × Sweeps (reclaimed now base max) (stale now held limit db) db db'
        × (length (stale now held limit db) ≤ limit)
        × All (IsAbandoned now) (stale now held limit db)
  unfolding reclaim_stale
  reclaim_stale-Sweeps s =
      let may = select-All expires_before (is_stale now held) limit db.jobs in
      let (db', e, w) =
        for_each-Sweeps (reclaim_job base max now) (reclaimed now base max)
          (λ job. is_stale now held job ≡ true) reclaim_one (stale now held limit db) db s
          (Distinct-select job_key expires_before (is_stale now held) limit db.jobs s.keys)
          (All-select expires_before (At db) (is_stale now held) limit db.jobs
            (rows-Found job_key db.jobs s.keys))
          may in
      (
        db',
        e,
        w,
        length-take-le limit _,
        All-map (abandoned now held) (stale now held limit db) may,
      )

  nobody_owns :
      (ending : Ending) (t worker : ℕ) (db' : JobDb)
      → Sound db'
      → (job : Job) → find_job job.job_id db' ≡ some (reclaimed now base max job)
      → end_lease ending t job.job_id worker db' ≡ err job_lease_lost
  unfolding owns_live_lease
  nobody_owns ending t worker db' s job at =
      rw ((end_lease-told ending t job.job_id worker db' s).0, at)
        (ground (arith, row_idle expired now job))

  -- In the tables that `reclaim_stale` leaves, starting from sound ones, no worker can end a job that was
  -- taken away: in whatever way and at whatever time, it is told that the lease is lost.
  pub reclaimed_excludes :
      Sound db
      → (ending : Ending) (t worker : ℕ) (js : List Job) (db' : JobDb)
      → reclaim_stale now held limit base max db ≡ ok (js, db')
      → All
          (λ job. end_lease ending t job.job_id worker db' ≡ err job_lease_lost)
          (stale now held limit db)
  reclaimed_excludes s ending t worker js db' e =
      let (db1, e1, w, few, all_gone) = reclaim_stale-Sweeps s in
      let same : db1 ≡ db' = cc (e1, e) in
      rw (← same)
        (All-map (nobody_owns ending t worker db1 w.sound) (stale now held limit db) w.treated)
