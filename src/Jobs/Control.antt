-- ===== src/Jobs/Control.antt =====
-- `heartbeat`, `cancel` and `retry` keep the tables sound.
use ai_game.Base.{ℕ, ◌≡◌, refl, true, some, arith, Bool-cases, Option-cases, inl, inr}
use ai_game.Errors.{Result, ok, err}
use ai_game.Jobs.Tables.{Job, JobDb, find_job, is_running}
use ai_game.Jobs.Leases.{owns_live_lease, renewed, heartbeat, save_job}
use ai_game.Jobs.Finish.{cancelled_row, cancel, is_retryable, retried, retry}
use ai_game.Jobs.Sound.{
  Sound, EndsSound, Apart-refl, saved-Sound, found_self, lease_matches, within_budget,
}

-- The flush of a job that runs if and only if it did, and keeps its number.
kept-Sound :
    (i : ℕ) (job job' : Job) (db : JobDb)
    → Sound db
    → find_job i db ≡ some job
    → job'.job_id ≡ job.job_id
    → job'.attempt_count ≡ job.attempt_count
    → is_running job'.status ≡ is_running job.status
    → lease_matches job' ≡ true
    → within_budget job' ≡ true
    → Sound (save_job job' db)
kept-Sound i job job' db s f same count runs lease budget =
    let wf = s.rows i job f in
    saved-Sound job.job_id job job' db.attempts db (found_self i job db f) same s
      (Apart-refl job.job_id db.attempts)
      (record {
        lease = lease;
        budget = budget;
        under_way = rw (same, runs) wf.under_way;
        active = rw (same, runs, count) wf.active;
        numbers = rw (same, count) wf.numbers;
      })

renewed-matches :
    (now worker lease_seconds : ℕ) (job : Job)
    → owns_live_lease job worker now ≡ true
    → lease_matches job ≡ true
    → lease_matches (renewed now lease_seconds job) ≡ true
unfolding owns_live_lease
renewed-matches now worker lease_seconds job o m = ground (arith, o, m)

-- The row that `cancel` leaves.
abbrev CancelKeeps : Job → Job → Type 0
CancelKeeps job job' =
    (job'.job_id ≡ job.job_id)
    × (job'.attempt_count ≡ job.attempt_count)
    × (is_running job'.status ≡ is_running job.status)
    × (lease_matches job' ≡ true)
    × (within_budget job' ≡ true)

cancelled_keeps :
    (now : ℕ) (job job' : Job)
    → cancelled_row now job ≡ ok job'
    → lease_matches job ≡ true
    → within_budget job ≡ true
    → CancelKeeps job job'
unfolding cancelled_row
cancelled_keeps now job job' e m b = ground (arith, e, m, b)

module _ (now i : ℕ) (db : JobDb) (s : Sound db) where
  renewed-Sound :
      (worker lease_seconds : ℕ) (job : Job)
      → find_job i db ≡ some job
      → owns_live_lease job worker now ≡ true
      → Sound (save_job (renewed now lease_seconds job) db)
  renewed-Sound worker lease_seconds job f o =
      let wf = s.rows i job f in
      kept-Sound i job (renewed now lease_seconds job) db s f refl refl refl
        (renewed-matches now worker lease_seconds job o wf.lease) wf.budget

  pub heartbeat-Sound :
      (worker lease_seconds : ℕ) → Sound (heartbeat now i worker lease_seconds db).1
  unfolding heartbeat
  heartbeat-Sound worker lease_seconds = elim (Option-cases (find_job i db)) [
    | inl f ↦ rw (heartbeat, f) s
    | inr (job, f) ↦ elim (Bool-cases (owns_live_lease job worker now)) [
      | inl o ↦ rw (heartbeat, f, o) (renewed-Sound worker lease_seconds job f o)
      | inr o ↦ rw (heartbeat, f, o) s
    ]
  ]

  cancel_row :
      (job : Job)
      → find_job i db ≡ some job
      → (r : Result Job) → cancelled_row now job ≡ r
      → EndsSound (cancel now i db)
  unfolding cancel
  cancel_row job f (err e) h = rw (f, h) tt
  cancel_row job f (ok job') h =
      let wf = s.rows i job f in
      let (same, count, runs, lease, budget) = cancelled_keeps now job job' h wf.lease wf.budget in
      rw (f, h) (kept-Sound i job job' db s f same count runs lease budget)

  pub cancel-EndsSound : EndsSound (cancel now i db)
  unfolding cancel
  cancel-EndsSound = elim (Option-cases (find_job i db)) [
    | inl f ↦ rw f tt
    | inr (job, f) ↦ cancel_row job f (cancelled_row now job) refl
  ]

  retried-Sound :
      (job : Job)
      → find_job i db ≡ some job
      → is_retryable job.status ≡ true
      → Sound (save_job (retried now job) db)
  retried-Sound job f may =
      kept-Sound i job (retried now job) db s f refl refl (ground (arith, may)) refl (ground arith)

  pub retry-EndsSound : EndsSound (retry now i db)
  unfolding retry
  retry-EndsSound = elim (Option-cases (find_job i db)) [
    | inl f ↦ rw f tt
    | inr (job, f) ↦ elim (Bool-cases (is_retryable job.status)) [
      | inl may ↦ rw (f, may) (retried-Sound job f may)
      | inr other ↦ rw (f, other) tt
    ]
  ]
