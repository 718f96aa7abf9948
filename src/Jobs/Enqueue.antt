-- ===== src/Jobs/Enqueue.antt =====
-- What `enqueue` adds, and that it adds nothing twice.
use ai_game.Base.{
  append-Distinct, ℕ, ◌≤◌, ◌≡◌, refl, false, none, some, List, [], ◌∷◌, ◌++◌, arith, any, find,
  find-append_one, find-append_old, Option-cases, inl, inr,
}
use ai_game.Jobs.Tables.{Job, Attempt, JobDb, job_key, find_job}
use ai_game.Jobs.Attempts.{open_attempts, exceeds}
use ai_game.Jobs.Queue.{find_by_idempotency_key, JobRequest, requested_job, enqueue}
use ai_game.Jobs.Sound.{WellFormed, Sound, EndsSound, of_job}

-- What no attempt is of, nothing is said of.
no_attempts :
    (j n : ℕ) (ts : List Attempt)
    → any (of_job j) ts ≡ false
    → (open_attempts j ts ≡ 0) × (any (exceeds j n) ts ≡ false)
no_attempts j n [] h = (refl, refl)
no_attempts j n (t ∷ ts) h = ground (arith, no_attempts j n ts)

module _ (job_max_attempts now : ℕ) (q : JobRequest) (db : JobDb) (s : Sound db)
    (positive : 1 ≤ job_max_attempts) where
  abbrev added : Job
  added = requested_job job_max_attempts now q

  added-WellFormed : find_job q.job_id db ≡ none → WellFormed added db.attempts
  added-WellFormed f =
      let nothing = no_attempts q.job_id 0 db.attempts (s.orphans q.job_id f) in
      record {
        lease = refl;
        budget = ground arith;
        under_way = nothing.0;
        active = refl;
        numbers = nothing.1;
      }

  abbrev grown : List Job
  grown = db.jobs ++ added ∷ []

  old_row :
      (j : ℕ) (old job : Job)
      → find job_key j db.jobs ≡ some old
      → find job_key j grown ≡ some job
      → old ≡ job
  old_row j old job g h = let at = find-append_old job_key j added db.jobs old g in cc (at, h)

  new_row :
      (j : ℕ) (job : Job)
      → find job_key j db.jobs ≡ none
      → find job_key j grown ≡ some job
      → added ≡ job
  new_row j job g h = ground (arith, find-append_one job_key j added db.jobs g, h)

  still_missing : (j : ℕ) → find job_key j grown ≡ none → find job_key j db.jobs ≡ none
  still_missing j h = elim (Option-cases (find job_key j db.jobs)) [
    | inl g ↦ g
    | inr (old, g) ↦ absurd (let at = find-append_old job_key j added db.jobs old g in cc (at, h))
  ]

  added-Sound : find_job q.job_id db ≡ none → Sound (record db { jobs = db.jobs ++ added ∷ [] })
  added-Sound f = record {
    keys = append-Distinct job_key added db.jobs s.keys f;
    rows = λ j job h. elim (Option-cases (find_job j db)) [
      | inr (old, g) ↦ rw (← old_row j old job g h) (s.rows j old g)
      | inl g ↦ rw (← new_row j job g h) (added-WellFormed f)
    ];
    orphans = λ j h. s.orphans j (still_missing j h);
  }

  pub enqueue-EndsSound : EndsSound (enqueue job_max_attempts now q db)
  unfolding enqueue
  enqueue-EndsSound = elim (Option-cases (find_by_idempotency_key q.idempotency_key db.jobs)) [
    | inr (old, k) ↦ rw (enqueue, k) s
    | inl k ↦ elim (Option-cases (find_job q.job_id db)) [
      | inr (taken, f) ↦ rw (enqueue, k, f) tt
      | inl f ↦ rw (enqueue, k, f) (added-Sound f)
    ]
  ]
