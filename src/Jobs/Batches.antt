-- ===== src/Jobs/Batches.antt =====
-- The loops over selected jobs: `lease_batch` and `reclaim_stale` treat each row once and no other.
use ai_game.Base.{
  ℕ, ◌≡◌, refl, ◌∙◌, false, some, List, [], ◌∷◌, arith, ◌==◌, map, All, Distinct, Differs,
}
use ai_game.Errors.{ok, Tx}
use ai_game.Jobs.Tables.{Job, JobDb, job_key, find_job}
use ai_game.Jobs.Leases.{for_each}
use ai_game.Jobs.Sound.{Sound}
use ai_game.Jobs.Growth.{Grown, Grown-refl, Grown-trans}

-- One row was given its new value, and the other rows are as before. All stay in their places.
pub record Treats (job job' : Job) (db db' : JobDb) : Type 0 where
  pub sound : Sound db'
  pub here : find_job job.job_id db' ≡ some job'
  pub others : (k : ℕ) → (job.job_id == k) ≡ false → find_job k db' ≡ find_job k db
  pub grown : Grown db.jobs db'.jobs

abbrev pub At : JobDb → Job → Type 0
At db job = find_job job.job_id db ≡ some job

abbrev pub IsOther : ℕ → Job → Type 0
IsOther k job = (job.job_id == k) ≡ false

-- Every row of a list was given its new value, and the other rows are as before. All stay in their places.
pub record Sweeps (f : Job → Job) (jobs : List Job) (db db' : JobDb) : Type 0 where
  pub sound : Sound db'
  pub treated : All (λ job. find_job job.job_id db' ≡ some (f job)) jobs
  pub others : (k : ℕ) → All (IsOther k) jobs → find_job k db' ≡ find_job k db
  pub grown : Grown db.jobs db'.jobs

still-At :
    (job job' : Job) (db db1 : JobDb) (rest : List Job)
    → Treats job job' db db1
    → All (Differs job_key job) rest
    → All (At db) rest
    → All (At db1) rest
still-At job job' db db1 [] t d a = tt
still-At job job' db db1 (x ∷ xs) t d a =
    (t.others x.job_id (ground (arith, d.0)) ∙ a.0, still-At job job' db db1 xs t d.1 a.1)

others_differ : (x : Job) (xs : List Job) → All (Differs job_key x) xs → All (IsOther x.job_id) xs
others_differ x [] d = tt
others_differ x (y ∷ ys) d = (ground (arith, d.0), others_differ x ys d.1)

module _ (body : Job → Tx JobDb Job) (f : Job → Job) (P : Job → Type 0)
    (step : (job : Job) (db : JobDb)
      → Sound db
      → At db job
      → P job
      → (db1 : JobDb) × (body job db ≡ ok (f job, db1)) × Treats job (f job) db db1) where
  pub for_each-Sweeps :
      (jobs : List Job) (db : JobDb)
      → Sound db
      → Distinct job_key jobs
      → All (At db) jobs
      → All P jobs
      → (db' : JobDb) × (for_each body jobs db ≡ ok (map f jobs, db')) × Sweeps f jobs db db'
  unfolding for_each
  for_each-Sweeps [] db s d a p = (
    db,
    refl,
    record { sound = s; treated = tt; others = λ k h. refl; grown = Grown-refl db.jobs },
  )
  for_each-Sweeps (job ∷ rest) db s d a p =
      let (db1, e1, t) = step job db s a.0 p.0 in
      let (db2, e2, w) =
        for_each-Sweeps rest db1 t.sound d.1 (still-At job (f job) db db1 rest t d.0 a.1) p.1 in
      (
        db2,
        rw (e1, e2) refl,
        record {
          sound = w.sound;
          treated = (w.others job.job_id (others_differ job rest d.0) ∙ t.here, w.treated);
          others = λ k h. w.others k h.1 ∙ t.others k h.0;
          grown = Grown-trans db.jobs db1.jobs db2.jobs t.grown w.grown;
        },
      )
