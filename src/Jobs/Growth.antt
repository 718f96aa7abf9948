-- ===== src/Jobs/Growth.antt =====
-- The jobs of a table stay in their order, under their identifiers and keys, and new ones come after them.
use ai_game.Base.{
  ℕ, ◌≡◌, refl, sym, ◌∙◌, true, false, some, List, [], ◌∷◌, ◌++◌, arith, ◌==◌, find, put,
  Bool-cases, inl, inr,
}
use ai_game.Jobs.Tables.{Job, job_key}
use ai_game.Jobs.Queue.{find_by_idempotency_key}

abbrev pub Grown : List Job → List Job → Type 0
Grown [] jobs = Unit
Grown (x ∷ rest) [] = ⊥
Grown (x ∷ rest) (y ∷ jobs) =
    (y.job_id ≡ x.job_id) × (y.idempotency_key ≡ x.idempotency_key) × Grown rest jobs

pub Grown-refl : (jobs : List Job) → Grown jobs jobs
Grown-refl [] = tt
Grown-refl (x ∷ rest) = (refl, refl, Grown-refl rest)

pub Grown-trans : (a b c : List Job) → Grown a b → Grown b c → Grown a c
Grown-trans [] b c g h = tt
Grown-trans (x ∷ a) [] c g h = absurd g
Grown-trans (x ∷ a) (y ∷ b) [] g h = absurd h
Grown-trans (x ∷ a) (y ∷ b) (z ∷ c) (i, k, g) (j, l, h) = (j ∙ i, l ∙ k, Grown-trans a b c g h)

pub append-Grown : (jobs more : List Job) → Grown jobs (jobs ++ more)
append-Grown [] more = tt
append-Grown (x ∷ rest) more = (refl, refl, append-Grown rest more)

-- A found row is saved under its identifier and its key.
pub put-Grown :
    (i : ℕ) (old new : Job) (jobs : List Job)
    → find job_key i jobs ≡ some old
    → new.job_id ≡ i
    → new.idempotency_key ≡ old.idempotency_key
    → Grown jobs (put job_key new jobs)
put-Grown i old new [] f same key = tt
put-Grown i old new (x ∷ rest) f same key = elim (Bool-cases (i == x.job_id)) [
  | inl hit ↦
      let here : (new.job_id == x.job_id) ≡ true = rw same hit in
      let is_old : x.idempotency_key ≡ old.idempotency_key = ground (arith, f, hit) in
      rw here (ground (arith, here), key ∙ sym is_old, Grown-refl rest)
  | inr miss ↦
      let other : (new.job_id == x.job_id) ≡ false = rw same miss in
      rw other (refl, refl, put-Grown i old new rest (ground (arith, f, miss)) same key)
]

-- The row with a key stays the one with it.
pub found_key :
    (key : ℕ) (job : Job) (jobs grown : List Job)
    → Grown jobs grown
    → find_by_idempotency_key key jobs ≡ some job
    → (job' : Job) × (find_by_idempotency_key key grown ≡ some job') × (job'.job_id ≡ job.job_id)
found_key key job [] grown g f = ground (arith, f)
found_key key job (x ∷ rest) [] g f = absurd g
found_key key job (x ∷ rest) (y ∷ grown) (i, k, g) f =
    elim (Bool-cases (key == x.idempotency_key)) [
      | inl hit ↦ (y, ground (arith, k, hit), ground (arith, f, hit, i))
      | inr miss ↦
          let (job', at, same) = found_key key job rest grown g (ground (arith, f, miss)) in
          (job', ground (arith, k, miss, at), same)
    ]
