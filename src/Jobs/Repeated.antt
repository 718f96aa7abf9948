-- ===== src/Jobs/Repeated.antt =====
-- A request that is made again, at any later time.
use ai_game.Base.{
  ap, sym, All, rows-Found, ℕ, ◌≤◌, ◌≡◌, refl, ◌∙◌, none, some, List, [], ◌∷◌, ◌++◌, arith, ◌==◌,
  if◌then◌else◌, Bool-cases, Option-cases, inl, inr, key-find,
}
use ai_game.Errors.{Result, ok, err}
use ai_game.Jobs.Tables.{Job, JobDb, job_key, find_job}
use ai_game.Jobs.Leases.{owns_live_lease, renewed, heartbeat}
use ai_game.Jobs.Finish.{cancelled_row, cancel, is_retryable, retried, retry}
use ai_game.Jobs.Queue.{JobRequest, find_by_idempotency_key, requested_job, enqueue}
use ai_game.Jobs.Sound.{Sound}
use ai_game.Jobs.Growth.{Grown, Grown-refl, Grown-trans, append-Grown, put-Grown, found_key}
use ai_game.Jobs.Endings.{Ending, end_lease, end_lease-told, ended_row, row_id, row_key}
use ai_game.Jobs.Batches.{At}
use ai_game.Jobs.Leasing.{lease_batch-Sweeps}
use ai_game.Jobs.Reclaiming.{reclaim_stale-Sweeps}
use ai_game.Jobs.Calls.{
  Call, enqueued, leasing, beating, ending, cancelling_job, retrying, reclaiming, after, perform,
  perform-Sound, replay, replay-Sound,
}

module _ (now : ℕ) (db : JobDb) (s : Sound db) where
  -- A call leaves every job in its place.
  abbrev Grows : JobDb → Type 0
  Grows db' = Grown db.jobs db'.jobs

  idle : Grows db
  idle = Grown-refl db.jobs

  enqueue-Grows : (max : ℕ) (q : JobRequest) → Grows (after db (enqueue max now q db))
  unfolding enqueue
  enqueue-Grows max q = elim (Option-cases (find_by_idempotency_key q.idempotency_key db.jobs)) [
    | inr (old, k) ↦ rw (enqueue, k) idle
    | inl k ↦ elim (Option-cases (find_job q.job_id db)) [
      | inr (taken, f) ↦ rw (enqueue, k, f) idle
      | inl f ↦ rw (enqueue, k, f) (append-Grown db.jobs (requested_job max now q ∷ []))
    ]
  ]

  heartbeat-Grows : (i worker lease_seconds : ℕ) → Grows (heartbeat now i worker lease_seconds db).1
  unfolding heartbeat
  heartbeat-Grows i worker lease_seconds = elim (Option-cases (find_job i db)) [
    | inl f ↦ rw (heartbeat, f) idle
    | inr (old, f) ↦ elim (Bool-cases (owns_live_lease old worker now)) [
      | inl o ↦
          rw (heartbeat, f, o)
            (put-Grown i old (renewed now lease_seconds old) db.jobs f
              (key-find job_key i db.jobs old f) refl)
      | inr o ↦ rw (heartbeat, f, o) idle
    ]
  ]

  ending-Grows : (e : Ending) (i worker : ℕ) → Grows (after db (end_lease e now i worker db))
  ending-Grows e i worker = elim (Option-cases (find_job i db)) [
    | inl f ↦ rw ((end_lease-told e now i worker db s).0, f) idle
    | inr (old, f) ↦ elim (Bool-cases (owns_live_lease old worker now)) [
      | inl o ↦
          rw ((end_lease-told e now i worker db s).0, f, o)
            (put-Grown i old (ended_row e now old) db.jobs f
              (row_id e now old ∙ key-find job_key i db.jobs old f) (row_key e now old))
      | inr o ↦ rw ((end_lease-told e now i worker db s).0, f, o) idle
    ]
  ]

  cancelled_same :
      (old new : Job)
      → cancelled_row now old ≡ ok new
      → (new.job_id ≡ old.job_id) × (new.idempotency_key ≡ old.idempotency_key)
  unfolding cancelled_row
  cancelled_same old new h = ground (arith, h)

  cancel_old :
      (i : ℕ) (old : Job)
      → find_job i db ≡ some old
      → (r : Result Job) → cancelled_row now old ≡ r
      → Grows (after db (cancel now i db))
  unfolding cancel
  cancel_old i old f (err e) h = rw (f, h) idle
  cancel_old i old f (ok new) h =
      let (id, key) = cancelled_same old new h in
      rw (f, h) (put-Grown i old new db.jobs f (id ∙ key-find job_key i db.jobs old f) key)

  cancel-Grows : (i : ℕ) → Grows (after db (cancel now i db))
  unfolding cancel
  cancel-Grows i = elim (Option-cases (find_job i db)) [
    | inl f ↦ rw f idle
    | inr (old, f) ↦ cancel_old i old f (cancelled_row now old) refl
  ]

  retry-Grows : (i : ℕ) → Grows (after db (retry now i db))
  unfolding retry
  retry-Grows i = elim (Option-cases (find_job i db)) [
    | inl f ↦ rw f idle
    | inr (old, f) ↦ elim (Bool-cases (is_retryable old.status)) [
      | inl may ↦
          rw (f, may)
            (put-Grown i old (retried now old) db.jobs f (key-find job_key i db.jobs old f) refl)
      | inr other ↦ rw (f, other) idle
    ]
  ]

  perform-Grows : (max : ℕ) (call : Call) → Grows (perform max now call db)
  unfolding perform
  perform-Grows max (enqueued q) = enqueue-Grows max q
  perform-Grows max (leasing held worker limit lease_seconds) =
      let (db', e, w, _, _) = lease_batch-Sweeps now held worker limit lease_seconds db s in
      rw e w.grown
  perform-Grows max (beating i worker lease_seconds) = heartbeat-Grows i worker lease_seconds
  perform-Grows max (ending e i worker) = ending-Grows e i worker
  perform-Grows max (cancelling_job i) = cancel-Grows i
  perform-Grows max (retrying i) = retry-Grows i
  perform-Grows max (reclaiming held limit base top) =
      let (db', e, w, _, _) = reclaim_stale-Sweeps now held limit base top db s in rw e w.grown

module _ (max : ℕ) (positive : 1 ≤ max) where
  replay-Grows :
      (calls : List (ℕ × Call)) (db : JobDb) → Sound db → Grown db.jobs (replay max calls db).jobs
  unfolding replay
  replay-Grows [] db s = Grown-refl db.jobs
  replay-Grows ((now, call) ∷ rest) db s =
      let db1 = perform max now call db in
      Grown-trans db.jobs db1.jobs (replay max rest db1).jobs (perform-Grows now db s max call)
        (replay-Grows rest db1 (perform-Sound max positive now call db s))

find_key-append :
    (key : ℕ) (a : Job) (t : List Job)
    → find_by_idempotency_key key t ≡ none
    → find_by_idempotency_key key (t ++ a ∷ [])
      ≡ (if key == a.idempotency_key then some a else none)
find_key-append key a [] h = refl
find_key-append key a (x ∷ t) h = ground (arith, find_key-append key a t)

requested_key :
    (max now : ℕ) (q : JobRequest) (job : Job) (db db1 : JobDb)
    → enqueue max now q db ≡ ok (job, db1)
    → find_by_idempotency_key q.idempotency_key db1.jobs ≡ some job
unfolding enqueue
requested_key max now q job db db1 e =
    ground (arith, e, find_key-append q.idempotency_key (requested_job max now q) db.jobs)

known_request :
    (max now : ℕ) (q : JobRequest) (job : Job) (db : JobDb)
    → find_by_idempotency_key q.idempotency_key db.jobs ≡ some job
    → enqueue max now q db ≡ ok (job, db)
unfolding enqueue
known_request max now q job db f = rw (enqueue, f) refl

-- The row that is found by its key is the row of its identifier.
keyed_row :
    (P : Job → Type 0) (key : ℕ) (job : Job) (jobs : List Job)
    → find_by_idempotency_key key jobs ≡ some job
    → All P jobs
    → P job
keyed_row P key job [] f a = ground (arith, f)
keyed_row P key job (x ∷ rest) f a = elim (Bool-cases (key == x.idempotency_key)) [
  | inl hit ↦ let is_x : x ≡ job = ground (arith, f, hit) in rw (← is_x) a.0
  | inr miss ↦ keyed_row P key job rest (ground (arith, f, miss)) a.1
]

-- A request with the key of an earlier one, with whatever else in it and whatever was called on the queue in
-- between, returns the job of the earlier one, as it then is, and changes nothing. The tables are sound
-- after the earlier request, and new jobs are given at least one attempt by default.
pub enqueue-idempotent :
    (max : ℕ)
    → 1 ≤ max
    → (now now2 : ℕ) (q q2 : JobRequest) (job : Job) (db db1 : JobDb)
    → q2.idempotency_key ≡ q.idempotency_key
    → enqueue max now q db ≡ ok (job, db1)
    → Sound db1
    → (calls : List (ℕ × Call))
    → (job' : Job) × (enqueue max now2 q2 (replay max calls db1) ≡ ok (job', replay max calls db1))
      × (job'.job_id ≡ job.job_id)
      × (find_job job.job_id (replay max calls db1) ≡ some job')
enqueue-idempotent max positive now now2 q q2 job db db1 same e s calls =
    let (job', at, id) =
      found_key q.idempotency_key job db1.jobs (replay max calls db1).jobs
        (replay-Grows max positive calls db1 s) (requested_key max now q job db db1 e) in
    let later = replay max calls db1 in
    let keys = (replay-Sound max positive calls db1 s).keys in
    let found =
      keyed_row (At later) q.idempotency_key job' later.jobs at
        (rows-Found job_key later.jobs keys) in
    (
      job',
      known_request max now2 q2 job' later (rw same at),
      id,
      ap (λ i. find_job i later) (sym id) ∙ found,
    )
