-- ===== src/Media/Numbers.antt =====
-- The numbers of attempts: the next one is fresh for its asset.
use ai_game.Base.{ℕ, ◌+◌, ◌<◌, ◌≡◌, refl, false, none, some, List, [], ◌∷◌, ◌++◌, arith, any, find}
use ai_game.Media.Tables.{MediaAttempt, MediaStore, attempt_key}
use ai_game.Media.Repository.{
  max_number, same_number, next_attempt_number, LeasedJob, new_attempt, insert_attempt,
  create_started_attempt,
}
use ai_game.Errors.{ok, media_persistence, err}

above_fresh :
    (asset_id n : ℕ) (attempts : List MediaAttempt)
    → max_number asset_id attempts < n
    → any (same_number asset_id n) attempts ≡ false
above_fresh asset_id n [] h = refl
above_fresh asset_id n (a ∷ rest) h = ground (arith, above_fresh asset_id n rest)

pub next_fresh :
    (asset_id : ℕ) (attempts : List MediaAttempt)
    → any (same_number asset_id (next_attempt_number asset_id attempts)) attempts ≡ false
unfolding next_attempt_number
next_fresh asset_id attempts =
    above_fresh asset_id (max_number asset_id attempts + 1) attempts (omega arith)

-- The insertion conflicts on the identifier only, never on the number.
pub started_fresh :
    (now attempt_id asset_id worker_id : ℕ) (job : LeasedJob) (s : MediaStore)
    → find attempt_key attempt_id s.attempts ≡ none
    → create_started_attempt now attempt_id asset_id worker_id job s
      ≡ ok (
        new_attempt now attempt_id asset_id worker_id job s.attempts,
        record s {
          attempts =
              s.attempts ++ new_attempt now attempt_id asset_id worker_id job s.attempts ∷ [];
        },
      )
unfolding create_started_attempt insert_attempt new_attempt
started_fresh now attempt_id asset_id worker_id job s f =
    ground (arith, f, next_fresh asset_id s.attempts)

pub started_taken :
    (now attempt_id asset_id worker_id : ℕ) (job : LeasedJob) (s : MediaStore) (a : MediaAttempt)
    → find attempt_key attempt_id s.attempts ≡ some a
    → create_started_attempt now attempt_id asset_id worker_id job s ≡ err media_persistence
unfolding create_started_attempt insert_attempt new_attempt
started_taken now attempt_id asset_id worker_id job s a f =
    ground (arith, f, next_fresh asset_id s.attempts)
