-- ===== src/Jobs/Sound.antt =====
-- The invariant of the queue's tables, and how the flush of one job keeps it.
use ai_game.Base.{
  ℕ, ◌≡◌, ◌≢◌, refl, sym, ap, ◌∙◌, Bool, true, false, not, ◌&&◌, ◌||◌, some, none, List, arith,
  ◌==◌, ltb, leb, if◌then◌else◌, is_some, is_none, any, find-put, Distinct, Distinct-put, key-find,
  Bool-cases, inl, inr,
}
use ai_game.Errors.{Result, ok, err}
use ai_game.Jobs.Tables.{Job, Attempt, JobDb, job_key, find_job, is_pending, is_running}
use ai_game.Jobs.Attempts.{is_active, open_attempts, exceeds}
use ai_game.Jobs.Leases.{save_job}

-- The four columns of a lease are set together, and exactly while the job runs.
abbrev pub lease_matches : Job → Bool
lease_matches job =
    if is_running job.status
    then is_some job.locked_by
      && (is_some job.locked_at && (is_some job.lease_expires_at && is_some job.heartbeat_at))
    else is_none job.locked_by
      && (is_none job.locked_at && (is_none job.lease_expires_at && is_none job.heartbeat_at))

-- A job that waits has an attempt left, and none has had more than its maximum.
abbrev pub within_budget : Job → Bool
within_budget job =
    if is_pending job.status
    then ltb job.attempt_count job.max_attempts
    else leb job.attempt_count job.max_attempts

abbrev pub of_job : ℕ → Attempt → Bool
of_job j a = a.job_id == j

-- A job and the audit of its attempts: one attempt is under way while the job runs, that of its current
-- number, and none otherwise; no attempt has a higher number.
pub record WellFormed (job : Job) (ts : List Attempt) : Type 0 where
  pub lease : lease_matches job ≡ true
  pub budget : within_budget job ≡ true
  pub under_way : open_attempts job.job_id ts ≡ (if is_running job.status then 1 else 0)
  pub active :
      (not (is_running job.status) || any (is_active job.job_id job.attempt_count) ts) ≡ true
  pub numbers : any (exceeds job.job_id job.attempt_count) ts ≡ false

pub record Sound (db : JobDb) : Type 0 where
  pub keys : Distinct job_key db.jobs
  pub rows : (j : ℕ) (job : Job) → find_job j db ≡ some job → WellFormed job db.attempts
  pub orphans : (j : ℕ) → find_job j db ≡ none → any (of_job j) db.attempts ≡ false

-- Two audits that differ in one job's attempts only.
pub record Apart (j : ℕ) (ts ts' : List Attempt) : Type 0 where
  pub under_way : (k : ℕ) → (j == k) ≡ false → open_attempts k ts' ≡ open_attempts k ts
  pub active : (k m : ℕ) → (j == k) ≡ false → any (is_active k m) ts' ≡ any (is_active k m) ts
  pub numbers : (k m : ℕ) → (j == k) ≡ false → any (exceeds k m) ts' ≡ any (exceeds k m) ts
  pub of : (k : ℕ) → (j == k) ≡ false → any (of_job k) ts' ≡ any (of_job k) ts

pub Apart-refl : (j : ℕ) (ts : List Attempt) → Apart j ts ts
Apart-refl j ts = record {
  under_way = λ k h. refl;
  active = λ k m h. refl;
  numbers = λ k m h. refl;
  of = λ k h. refl;
}

elsewhere :
    (j : ℕ) (ts ts' : List Attempt) (job : Job)
    → Apart j ts ts'
    → (j == job.job_id) ≡ false
    → WellFormed job ts
    → WellFormed job ts'
elsewhere j ts ts' job apart other w = record {
  lease = w.lease;
  budget = w.budget;
  under_way = rw (apart.under_way job.job_id other) w.under_way;
  active = rw (apart.active job.job_id job.attempt_count other) w.active;
  numbers = rw (apart.numbers job.job_id job.attempt_count other) w.numbers;
}

equal_ids : (j k : ℕ) → (j == k) ≡ true → j ≡ k
equal_ids j k h = ground arith

pub found_self :
    (j : ℕ) (job : Job) (db : JobDb) → find_job j db ≡ some job → find_job job.job_id db ≡ some job
found_self j job db f = ap (λ x. find_job x db) (key-find job_key j db.jobs job f) ∙ f

-- The flush of a job, with its attempts.
abbrev pub saved : Job → List Attempt → JobDb → JobDb
saved job ts db = record (save_job job db) { attempts = ts }

module _ (j : ℕ) (job job' : Job) (ts : List Attempt) (db : JobDb) (f : find_job j db ≡ some job)
    (same : job'.job_id ≡ j) where
  pub find-saved : find_job j (saved job' ts db) ≡ some job'
  find-saved = ground (arith, find-put job_key j job' db.jobs, f, same)

  pub find-saved_other : (k : ℕ) → (j == k) ≡ false → find_job k (saved job' ts db) ≡ find_job k db
  find-saved_other k h = ground (arith, find-put job_key k job' db.jobs, same)

  same_row : (k : ℕ) (r : Job) → (j == k) ≡ true → find_job k (saved job' ts db) ≡ some r → job' ≡ r
  same_row k r e h =
      let at = sym find-saved ∙ ap (λ x. find_job x (saved job' ts db)) (equal_ids j k e) ∙ h in
      cc at

  not_missing : (k : ℕ) → (j == k) ≡ true → find_job k (saved job' ts db) ≢ none
  not_missing k e h =
      let at = sym find-saved ∙ ap (λ x. find_job x (saved job' ts db)) (equal_ids j k e) ∙ h in
      cc at

  other_id :
      (k : ℕ) (r : Job)
      → (j == k) ≡ false
      → find_job k (saved job' ts db) ≡ some r
      → (j == r.job_id) ≡ false
  other_id k r e h = rw (key-find job_key k (saved job' ts db).jobs r h) e

  pub saved-Sound :
      Sound db → Apart j db.attempts ts → WellFormed job' ts → Sound (saved job' ts db)
  saved-Sound s apart w = record {
    keys = Distinct-put job_key job' db.jobs s.keys;
    rows = λ k r h. elim (Bool-cases (j == k)) [
      | inl e ↦ rw (← same_row k r e h) w
      | inr e ↦
          elsewhere j db.attempts ts r apart (other_id k r e h)
            (s.rows k r (sym (find-saved_other k e) ∙ h))
    ];
    orphans = λ k h. elim (Bool-cases (j == k)) [
      | inl e ↦ absurd (not_missing k e h)
      | inr e ↦ rw (apart.of k e, s.orphans k (sym (find-saved_other k e) ∙ h))
    ];
  }

-- A committed result leaves sound tables.
abbrev pub EndsSound {ℓ} : {A : Type ℓ} → Result (A × JobDb) → Type 0
EndsSound (ok (a, db)) = Sound db
EndsSound (err e) = Unit
