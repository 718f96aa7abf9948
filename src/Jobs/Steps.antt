-- ===== src/Jobs/Steps.antt =====
-- One job's attempt begins or ends, and its row with it.
use ai_game.Base.{
  ℕ, ◌+◌, ◌≡◌, refl, String, true, false, Option, List, [], ◌∷◌, ◌++◌, arith, any, any-append,
}
use ai_game.Errors.{ok}
use ai_game.Constants.{JobAttemptStatus}
use ai_game.Jobs.Tables.{Job, Attempt, is_open, is_pending, is_running}
use ai_game.Jobs.Attempts.{
  is_active, rewrite_active, closed, finish_attempt, add_attempt, exceeds, open-append, next_free,
  exceeds-weaken, open-rewrite, open-rewrite_other, active-rewrite_other, exceeds-rewrite,
}
use ai_game.Jobs.Leases.{leased, new_attempt}
use ai_game.Jobs.Sound.{WellFormed, Apart, lease_matches, within_budget, of_job}

module _ (j n : ℕ) (w : Option ℕ) (s : JobAttemptStatus) (now : ℕ) (e : Option String) where
  of-rewrite :
      (k : ℕ) (ts : List Attempt)
      → any (of_job k) (rewrite_active j n (closed w s now e) ts) ≡ any (of_job k) ts
  of-rewrite k [] = refl
  of-rewrite k (t ∷ ts) = ground (arith, of-rewrite k ts)

-- A running job's attempt ends: its row is found, and the job's new row is sound if it does not run, keeps
-- its number, and has no lease and its budget.
module _ (job job' : Job) (ts : List Attempt) (wf : WellFormed job ts)
    (runs : is_running job.status ≡ true) (w : Option ℕ) (s : JobAttemptStatus) (now : ℕ)
    (e : Option String) (shut : is_open s ≡ false) where
  abbrev pub ended : List Attempt
  ended = rewrite_active job.job_id job.attempt_count (closed w s now e) ts

  was_active : any (is_active job.job_id job.attempt_count) ts ≡ true
  was_active = ground (arith, wf.active, runs)

  pub finish_attempt-ok : finish_attempt job w s now e ts ≡ ok ended
  unfolding finish_attempt
  finish_attempt-ok = ground (arith, was_active)

  pub ended-Apart : Apart job.job_id ts ended
  ended-Apart = record {
    under_way = λ k h. open-rewrite_other job.job_id job.attempt_count w s now e shut k ts h;
    active = λ k m h. active-rewrite_other job.job_id job.attempt_count w s now e shut k m ts h;
    numbers = λ k m h. exceeds-rewrite job.job_id job.attempt_count w s now e shut k m ts;
    of = λ k h. of-rewrite job.job_id job.attempt_count w s now e k ts;
  }

  pub ended-WellFormed :
      job'.job_id ≡ job.job_id
      → job'.attempt_count ≡ job.attempt_count
      → is_running job'.status ≡ false
      → lease_matches job' ≡ true
      → within_budget job' ≡ true
      → WellFormed job' ended
  ended-WellFormed i c idle lease budget = record {
    lease = lease;
    budget = budget;
    under_way = ground (
      arith,
      i,
      idle,
      runs,
      wf.under_way,
      open-rewrite job.job_id job.attempt_count w s now e shut ts was_active,
    );
    active = ground (arith, idle);
    numbers = ground (
      arith,
      i,
      c,
      wf.numbers,
      exceeds-rewrite job.job_id job.attempt_count w s now e shut job.job_id job.attempt_count ts,
    );
  }

-- A pending job is leased.
module _ (job : Job) (ts : List Attempt) (wf : WellFormed job ts)
    (waits : is_pending job.status ≡ true) (worker_id lease_seconds now : ℕ) where
  abbrev pub job_leased : Job
  job_leased = leased worker_id lease_seconds now job

  abbrev pub begun : List Attempt
  begun = ts ++ new_attempt worker_id now job_leased ∷ []

  pub add_attempt-ok : add_attempt (new_attempt worker_id now job_leased) ts ≡ ok begun
  unfolding add_attempt
  add_attempt-ok = ground (arith, next_free job.job_id job.attempt_count ts wf.numbers)

  pub begun-Apart : Apart job.job_id ts begun
  begun-Apart = record {
    under_way = λ k h. ground (arith, open-append k (new_attempt worker_id now job_leased) ts);
    active = λ k m h.
        ground (arith, any-append (is_active k m) ts (new_attempt worker_id now job_leased ∷ []));
    numbers = λ k m h.
        ground (arith, any-append (exceeds k m) ts (new_attempt worker_id now job_leased ∷ []));
    of =
        λ k h. ground (arith, any-append (of_job k) ts (new_attempt worker_id now job_leased ∷ []));
  }

  pub begun-WellFormed : WellFormed job_leased begun
  begun-WellFormed = record {
    lease = refl;
    budget = ground (arith, wf.budget);
    under_way = ground (
      arith,
      wf.under_way,
      waits,
      open-append job.job_id (new_attempt worker_id now job_leased) ts,
    );
    active = ground (
      arith,
      any-append (is_active job.job_id (job.attempt_count + 1)) ts
          (new_attempt worker_id now job_leased ∷ []),
    );
    numbers = ground (
      arith,
      exceeds-weaken job.job_id job.attempt_count ts wf.numbers,
      any-append (exceeds job.job_id (job.attempt_count + 1)) ts
          (new_attempt worker_id now job_leased ∷ []),
    );
  }
