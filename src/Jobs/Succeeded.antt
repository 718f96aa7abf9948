-- ===== src/Jobs/Succeeded.antt =====
-- A job that has succeeded is never touched again.
use ai_game.Base.{
  ℕ, ◌≤◌, ◌≡◌, ◌≢◌, refl, sym, ap, ◌∙◌, Bool, true, false, some, List, [], ◌∷◌, arith, ◌==◌, All,
  All-map, All-select, Bool-cases, Option-cases, inl, inr, find-append_old, rows-Found, key-find,
}
use ai_game.Errors.{Result, ok, err}
use ai_game.Constants.{JobStatus}
use ai_game.Jobs.Tables.{Job, JobDb, job_key, find_job}
use ai_game.Jobs.Leases.{owns_live_lease, save_job, renewed, heartbeat, leasable, leased_before}
use ai_game.Jobs.Finish.{
  cancelled_row, cancel, is_retryable, retried, retry, is_stale, expires_before,
}
use ai_game.Jobs.Queue.{JobRequest, requested_job, enqueue}
use ai_game.Jobs.Sound.{Sound, find-saved, find-saved_other}
use ai_game.Jobs.Endings.{Ending, end_lease, end_lease-told, ended_row, row_id}
use ai_game.Jobs.Batches.{At, IsOther}
use ai_game.Jobs.Leasing.{lease_batch-Sweeps}
use ai_game.Jobs.Reclaiming.{reclaim_stale-Sweeps}
use ai_game.Jobs.Calls.{
  Call, enqueued, leasing, beating, ending, cancelling_job, retrying, reclaiming, after, perform,
  perform-Sound, replay,
}

-- A saved row of another job, or of this one unchanged.
saved_apart :
    (i k : ℕ) (job old job' : Job) (db : JobDb)
    → find_job i db ≡ some job
    → find_job k db ≡ some old
    → job'.job_id ≡ k
    → (k == i) ≡ false
    → find_job i (save_job job' db) ≡ some job
saved_apart i k job old job' db f g same other =
    find-saved_other k old job' db.attempts db g same i other ∙ f

one_row :
    (i k : ℕ) (job old : Job) (db : JobDb)
    → find_job i db ≡ some job
    → find_job k db ≡ some old
    → (k == i) ≡ true
    → old ≡ job
one_row i k job old db f g e =
    let same : k ≡ i = ground (arith, e) in
    let at : find_job i db ≡ some old = rw (← same) g in cc (at, f)

module _ (i : ℕ) (job : Job) (db : JobDb) (s : Sound db) (f : find_job i db ≡ some job)
    (done : job.status ≡ JobStatus.succeeded) (now : ℕ) where
  -- A row in another status is another row.
  other_row :
      (k : ℕ) (old : Job)
      → find_job k db ≡ some old
      → old.status ≢ JobStatus.succeeded
      → (k == i) ≡ false
  other_row k old g n = elim (Bool-cases (k == i)) [
    | inl e ↦ absurd (n (rw (one_row i k job old db f g e) done))
    | inr e ↦ e
  ]

  owner_other :
      (k worker : ℕ) (old : Job)
      → find_job k db ≡ some old
      → owns_live_lease old worker now ≡ true
      → (k == i) ≡ false
  unfolding owns_live_lease
  owner_other k worker old g o = other_row k old g (ground (arith, o))

  kept_heartbeat :
      (k worker lease_seconds : ℕ)
      → find_job i (heartbeat now k worker lease_seconds db).1 ≡ some job
  unfolding heartbeat
  kept_heartbeat k worker lease_seconds = elim (Option-cases (find_job k db)) [
    | inl g ↦ rw (heartbeat, g) f
    | inr (old, g) ↦ elim (Bool-cases (owns_live_lease old worker now)) [
      | inl o ↦
          rw (heartbeat, g, o)
            (saved_apart i k job old (renewed now lease_seconds old) db f g
              (key-find job_key k db.jobs old g) (owner_other k worker old g o))
      | inr o ↦ rw (heartbeat, g, o) f
    ]
  ]

  kept_ending :
      (e : Ending) (k worker : ℕ) → find_job i (after db (end_lease e now k worker db)) ≡ some job
  kept_ending e k worker = elim (Option-cases (find_job k db)) [
    | inl g ↦ rw ((end_lease-told e now k worker db s).0, g) f
    | inr (old, g) ↦ elim (Bool-cases (owns_live_lease old worker now)) [
      | inl o ↦
          rw ((end_lease-told e now k worker db s).0, g, o)
            (saved_apart i k job old (ended_row e now old) db f g
              (row_id e now old ∙ key-find job_key k db.jobs old g) (owner_other k worker old g o))
      | inr o ↦ rw ((end_lease-told e now k worker db s).0, g, o) f
    ]
  ]

  cancelled_id : (old new : Job) → cancelled_row now old ≡ ok new → new.job_id ≡ old.job_id
  unfolding cancelled_row
  cancelled_id old new h = ground (arith, h)

  cancelled_done : (new : Job) → cancelled_row now job ≡ ok new → new ≡ job
  unfolding cancelled_row
  cancelled_done new h = ground (arith, h, done)

  cancel_old :
      (k : ℕ) (old : Job)
      → find_job k db ≡ some old
      → (r : Result Job) → cancelled_row now old ≡ r
      → find_job i (after db (cancel now k db)) ≡ some job
  unfolding cancel
  cancel_old k old g (err e) h = rw (g, h) f
  cancel_old k old g (ok new) h = elim (Bool-cases (k == i)) [
    | inl e ↦
        let is_job = one_row i k job old db f g e in
        let from_job : cancelled_row now job ≡ ok new = ap (cancelled_row now) (sym is_job) ∙ h in
        let id : new.job_id ≡ i =
          cancelled_id old new h ∙ key-find job_key k db.jobs old g ∙ ground (arith, e) in
        rw (g, h) (find-saved i job new db.attempts db f id ∙ ap some (cancelled_done new from_job))
    | inr e ↦
        rw (g, h)
          (saved_apart i k job old new db f g
            (cancelled_id old new h ∙ key-find job_key k db.jobs old g) e)
  ]

  kept_cancel : (k : ℕ) → find_job i (after db (cancel now k db)) ≡ some job
  unfolding cancel
  kept_cancel k = elim (Option-cases (find_job k db)) [
    | inl g ↦ rw g f
    | inr (old, g) ↦ cancel_old k old g (cancelled_row now old) refl
  ]

  kept_retry : (k : ℕ) → find_job i (after db (retry now k db)) ≡ some job
  unfolding retry
  kept_retry k = elim (Option-cases (find_job k db)) [
    | inl g ↦ rw g f
    | inr (old, g) ↦ elim (Bool-cases (is_retryable old.status)) [
      | inl may ↦
          rw (g, may)
            (saved_apart i k job old (retried now old) db f g (key-find job_key k db.jobs old g)
              (other_row k old g (ground (arith, may))))
      | inr other ↦ rw (g, other) f
    ]
  ]

  kept_enqueue :
      (max : ℕ) (q : JobRequest) → find_job i (after db (enqueue max now q db)) ≡ some job
  unfolding enqueue
  kept_enqueue max q =
      ground (arith, find-append_old job_key i (requested_job max now q) db.jobs job f, f)

  -- A selected row is another one, as it is not in this status.
  apart :
      (rows : List Job)
      → All (At db) rows
      → All (λ r. r.status ≢ JobStatus.succeeded) rows
      → All (IsOther i) rows
  apart [] a n = tt
  apart (r ∷ rows) a n = (other_row r.job_id r a.0 n.0, apart rows a.1 n.1)

  not_pending : (r : Job) → r.status ≡ JobStatus.pending → r.status ≢ JobStatus.succeeded
  not_pending r h = ground (arith, h)

  not_running : (r : Job) → r.status ≡ JobStatus.running → r.status ≢ JobStatus.succeeded
  not_running r h = ground (arith, h)

  kept_leasing :
      (max : ℕ) (held : ℕ → Bool) (worker limit lease_seconds : ℕ)
      → find_job i (perform max now (leasing held worker limit lease_seconds) db) ≡ some job
  unfolding perform
  kept_leasing max held worker limit lease_seconds =
      let (db', e, w, _, dues) = lease_batch-Sweeps now held worker limit lease_seconds db s in
      rw e (
        w.others i (
          apart _
            (All-select leased_before (At db) (leasable now held) limit db.jobs
              (rows-Found job_key db.jobs s.keys))
            (All-map (λ r h. not_pending r h.0) _ dues))
        ∙ f)

  kept_reclaiming :
      (limit base max attempts : ℕ) (held : ℕ → Bool)
      → find_job i (perform attempts now (reclaiming held limit base max) db) ≡ some job
  unfolding perform
  kept_reclaiming limit base max attempts held =
      let (db', e, w, _, gone) = reclaim_stale-Sweeps now held limit base max db s in
      rw e (
        w.others i (
          apart _
            (All-select expires_before (At db) (is_stale now held) limit db.jobs
              (rows-Found job_key db.jobs s.keys))
            (All-map (λ r h. not_running r h.0) _ gone))
        ∙ f)

  kept_call : (max : ℕ) (call : Call) → find_job i (perform max now call db) ≡ some job
  unfolding perform
  kept_call max (enqueued q) = kept_enqueue max q
  kept_call max (leasing held worker limit lease_seconds) =
      kept_leasing max held worker limit lease_seconds
  kept_call max (beating k worker lease_seconds) = kept_heartbeat k worker lease_seconds
  kept_call max (ending e k worker) = kept_ending e k worker
  kept_call max (cancelling_job k) = kept_cancel k
  kept_call max (retrying k) = kept_retry k
  kept_call max (reclaiming held limit base top) = kept_reclaiming limit base top max held

-- In sound tables, whatever is called on the queue afterwards and by whom, the row of a job that has
-- succeeded stays as it is: it is not leased, failed, cancelled, retried or reclaimed again. New jobs are
-- given at least one attempt by default.
pub succeeded_stays :
    (job_max_attempts : ℕ)
    → 1 ≤ job_max_attempts
    → (calls : List (ℕ × Call)) (i : ℕ) (job : Job) (db : JobDb) → Sound db
    → find_job i db ≡ some job
    → job.status ≡ JobStatus.succeeded
    → find_job i (replay job_max_attempts calls db) ≡ some job
unfolding replay
succeeded_stays max positive [] i job db s f done = f
succeeded_stays max positive ((now, call) ∷ rest) i job db s f done =
    succeeded_stays max positive rest i job (perform max now call db)
      (perform-Sound max positive now call db s) (kept_call i job db s f done now max call) done
