-- ===== src/Jobs/Attempts.antt =====
-- The audit of attempts: `_finish_attempt`, the rows that a lease adds, and what both do to the number of
-- attempts under way.
use ai_game.Base.{
  ℕ, ◌+◌, ◌-◌, ◌/◌, ◌≡◌, refl, String, Bool, true, false, ◌&&◌, Option, some, List, [], ◌∷◌, ◌++◌,
  arith, ◌==◌, ltb, any, if◌then◌else◌,
}
use ai_game.Errors.{Result, ok, err, persistence, job_conflict}
use ai_game.Constants.{JobAttemptStatus}
use ai_game.Jobs.Tables.{Job, Attempt, is_open}

-- The row that `_finish_attempt` selects: under way, of this job and with this number.
abbrev pub is_active : ℕ → ℕ → Attempt → Bool
is_active job_id attempt_number a =
    (a.job_id == job_id) && ((a.attempt_number == attempt_number) && is_open a.status)

-- The flush of the selected row. (The pair of job and number is unique.)
abbrev pub rewrite_active : ℕ → ℕ → (Attempt → Attempt) → List Attempt → List Attempt
rewrite_active j n change [] = []
rewrite_active j n change (a ∷ rest) =
    let rest' = rewrite_active j n change rest in
    if is_active j n a then change a ∷ rest else a ∷ rest'

abbrev pub closed : Option ℕ → JobAttemptStatus → ℕ → Option String → Attempt → Attempt
closed worker_id status now error_code attempt = record attempt {
  worker_id = worker_id;
  status = status;
  completed_at = some now;
  duration_ms = some ((now - attempt.started_at) / 1000);
  error_code = error_code;
}

-- `_finish_attempt`
unfoldable pub finish_attempt :
    Job → Option ℕ → JobAttemptStatus → ℕ → Option String → List Attempt → Result (List Attempt)
finish_attempt job worker_id status now error_code attempts =
    if any (is_active job.job_id job.attempt_count) attempts
    then ok (
        rewrite_active job.job_id job.attempt_count (closed worker_id status now error_code)
          attempts)
    else err job_conflict

abbrev pub same_number : ℕ → ℕ → Attempt → Bool
same_number j n a = (a.job_id == j) && (a.attempt_number == n)

-- An added row, under the constraint `uq_job_attempts_job_number`.
unfoldable pub add_attempt : Attempt → List Attempt → Result (List Attempt)
add_attempt a attempts =
    if any (same_number a.job_id a.attempt_number) attempts
    then err persistence
    else ok (attempts ++ a ∷ [])

-- How many attempts of a job are under way.
abbrev pub open_attempts : ℕ → List Attempt → ℕ
open_attempts j [] = 0
open_attempts j (a ∷ rest) =
    (if (a.job_id == j) && is_open a.status then 1 else 0) + open_attempts j rest

-- Whether a job has an attempt of a higher number.
abbrev pub exceeds : ℕ → ℕ → Attempt → Bool
exceeds j n a = (a.job_id == j) && ltb n a.attempt_number

pub open-append :
    (j : ℕ) (a : Attempt) (ts : List Attempt)
    → open_attempts j (ts ++ a ∷ [])
      ≡ open_attempts j ts + (if (a.job_id == j) && is_open a.status then 1 else 0)
open-append j a [] = ground arith
open-append j a (t ∷ ts) = omega (arith, open-append j a ts)

-- A number that no attempt exceeds is not taken by its successor.
pub next_free :
    (j n : ℕ) (ts : List Attempt)
    → any (exceeds j n) ts ≡ false
    → any (same_number j (n + 1)) ts ≡ false
next_free j n [] h = refl
next_free j n (t ∷ ts) h = ground (arith, next_free j n ts)

pub exceeds-weaken :
    (j n : ℕ) (ts : List Attempt)
    → any (exceeds j n) ts ≡ false
    → any (exceeds j (n + 1)) ts ≡ false
exceeds-weaken j n [] h = refl
exceeds-weaken j n (t ∷ ts) h = ground (arith, exceeds-weaken j n ts)

module _ (j n : ℕ) (w : Option ℕ) (s : JobAttemptStatus) (now : ℕ) (e : Option String)
    (shut : is_open s ≡ false) where
  abbrev shutting : List Attempt → List Attempt
  shutting = rewrite_active j n (closed w s now e)

  pub open-rewrite :
      (ts : List Attempt)
      → any (is_active j n) ts ≡ true
      → open_attempts j ts ≡ open_attempts j (shutting ts) + 1
  open-rewrite [] h = ground arith
  open-rewrite (t ∷ ts) h = ground (arith, open-rewrite ts)

  pub open-rewrite_other :
      (k : ℕ) (ts : List Attempt)
      → (j == k) ≡ false
      → open_attempts k (shutting ts) ≡ open_attempts k ts
  open-rewrite_other k [] h = refl
  open-rewrite_other k (t ∷ ts) h = ground (arith, open-rewrite_other k ts)

  pub active-rewrite_other :
      (k m : ℕ) (ts : List Attempt)
      → (j == k) ≡ false
      → any (is_active k m) (shutting ts) ≡ any (is_active k m) ts
  active-rewrite_other k m [] h = refl
  active-rewrite_other k m (t ∷ ts) h = ground (arith, active-rewrite_other k m ts)

  pub exceeds-rewrite :
      (k m : ℕ) (ts : List Attempt) → any (exceeds k m) (shutting ts) ≡ any (exceeds k m) ts
  exceeds-rewrite k m [] = refl
  exceeds-rewrite k m (t ∷ ts) = ground (arith, exceeds-rewrite k m ts)
