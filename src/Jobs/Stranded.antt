-- ===== src/Jobs/Stranded.antt =====
-- A job that was asked to stop and whose attempt fails.
use ai_game.Base.{
  ℕ, ◌<◌, ◌≡◌, refl, String, Bool, true, false, some, List, [], ◌∷◌, arith, ◌==◌, All, All-map,
  All-select, Bool-cases, inl, inr, key-find, rows-Found, ◌∙◌,
}
use ai_game.Errors.{ok, err, job_conflict}
use ai_game.Constants.{JobStatus}
use ai_game.Jobs.Tables.{Job, JobDb, job_key, find_job, is_running}
use ai_game.Jobs.Leases.{leasable, leased_before, owns_live_lease}
use ai_game.Jobs.Finish.{retry}
use ai_game.Jobs.Sound.{Sound, find-saved}
use ai_game.Jobs.Endings.{
  failing, end_lease, end_lease-told, ended_row, ended_db, ended_db-Sound, row_id,
}
use ai_game.Jobs.Batches.{At, IsOther}
use ai_game.Jobs.Leasing.{lease_batch-Sweeps}
use ai_game.Jobs.Calls.{leasing, perform}

module _ (i : ℕ) (job : Job) (db : JobDb) (s : Sound db) (f : find_job i db ≡ some job)
    (asked : job.cancel_requested ≡ true) where
  different : (r : Job) → At db r → r.cancel_requested ≡ false → (r.job_id == i) ≡ false
  different r at h = elim (Bool-cases (r.job_id == i)) [
    | inl e ↦
        let same : r.job_id ≡ i = ground (arith, e) in
        let there : find_job i db ≡ some r = rw (← same) at in
        absurd (ground (arith, there, f, asked, h))
    | inr e ↦ e
  ]

  different-All :
      (rows : List Job)
      → All (At db) rows
      → All (λ r. r.cancel_requested ≡ false) rows
      → All (IsOther i) rows
  different-All [] a h = tt
  different-All (r ∷ rows) a h = (different r a.0 h.0, different-All rows a.1 h.1)

  -- No lease is ever taken on a job that is asked to stop.
  never_leased :
      (max now : ℕ) (held : ℕ → Bool) (worker limit lease_seconds : ℕ)
      → find_job i (perform max now (leasing held worker limit lease_seconds) db) ≡ some job
  unfolding perform
  never_leased max now held worker limit lease_seconds =
      let (db', e, w, _, dues) = lease_batch-Sweeps now held worker limit lease_seconds db s in
      rw e (
        w.others i (
          different-All _
            (All-select leased_before (At db) (leasable now held) limit db.jobs
              (rows-Found job_key db.jobs s.keys))
            (All-map (λ r h. h.2) _ dues))
        ∙ f)

  not_retried : (t : ℕ) → job.status ≡ JobStatus.pending → retry t i db ≡ err job_conflict
  unfolding retry
  not_retried t h = ground (arith, f, h)

module _ (now i worker base max : ℕ) (code : String) (job : Job) (db : JobDb) (s : Sound db)
    (f : find_job i db ≡ some job) (owns : owns_live_lease job worker now ≡ true)
    (asked : job.cancel_requested ≡ true) (left : job.attempt_count < job.max_attempts) where
  abbrev retrying : Job
  retrying = ended_row (failing code true base max) now job

  abbrev failed_db : JobDb
  failed_db = ended_db (failing code true base max) now worker job db

  runs : is_running job.status ≡ true
  unfolding owns_live_lease
  runs = ground (arith, owns)

  waits : retrying.status ≡ JobStatus.pending
  waits = ground (arith, left)

  still_asked : retrying.cancel_requested ≡ true
  still_asked = ground (arith, asked)

  same_id : retrying.job_id ≡ i
  same_id = row_id (failing code true base max) now job ∙ key-find job_key i db.jobs job f

  -- In sound tables the attempt of a job that was asked to stop is failed retryably, by the holder of its live
  -- lease, who has not seen the request. As long as attempts are left the job waits again, but a
  -- `lease_batch` after that, at any time and for any worker, leaves it as it is, and `retry` refuses it.
  pub cancelled_job-strands :
      (t1 t2 attempts worker2 limit lease_seconds : ℕ) (held : ℕ → Bool)
      → (end_lease (failing code true base max) now i worker db ≡ ok (retrying, failed_db))
        × (retrying.status ≡ JobStatus.pending)
        × (find_job i (perform attempts t1 (leasing held worker2 limit lease_seconds) failed_db)
            ≡ some retrying)
        × (retry t2 i failed_db ≡ err job_conflict)
  cancelled_job-strands t1 t2 attempts worker2 limit lease_seconds held =
      let sound' = ended_db-Sound (failing code true base max) now i worker db s job f runs in
      let at = find-saved i job retrying failed_db.attempts db f same_id in
      (
        rw ((end_lease-told (failing code true base max) now i worker db s).0, f, owns) refl,
        waits,
        never_leased i retrying failed_db sound' at still_asked attempts t1 held worker2 limit
            lease_seconds,
        not_retried i retrying failed_db sound' at still_asked t2 waits,
      )
