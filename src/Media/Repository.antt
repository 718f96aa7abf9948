-- ===== src/Media/Repository.antt =====
-- app/repositories/media_repository.py: attempts at the generation of an asset.
use ai_game.Base.{
  ℕ, ◌+◌, ◌-◌, ◌/◌, String, Bool, true, false, ◌&&◌, ◌||◌, Option, none, some, List, [], ◌∷◌, ◌++◌,
  ◌==◌, any, ltb, find, is_some, if◌then◌else◌,
}
use ai_game.Errors.{
  Result, ok, ensure, ◌>>=◌, ◌>>◌, media_attempt_state_conflict, media_persistence,
}
use ai_game.Constants.{
  MediaAttemptStatus, started, MediaAttemptUpdateResult, updated, not_found, invalid_state,
  ownership_lost,
}
use ai_game.Jobs.Tables.{Job, find_job, is_running}
use ai_game.Jobs.Leases.{is_worker, is_later}
use ai_game.Media.Tables.{MediaAttempt, MediaStore, attempt_key, find_attempt, save_attempt}

-- `LeasedJob`: the fields that are read here.
pub record LeasedJob : Type 0 where
  pub job_id : ℕ
  pub attempt_count : ℕ

abbrev pub is_started : MediaAttemptStatus → Bool
is_started started = true
is_started _ = false

abbrev pub max : ℕ → ℕ → ℕ
max a b = if ltb a b then b else a

-- `SELECT max(attempt_number) WHERE media_asset_id`, zero if there is none
abbrev pub max_number : ℕ → List MediaAttempt → ℕ
max_number asset_id [] = 0
max_number asset_id (a ∷ rest) =
    let other = max_number asset_id rest in
    if asset_id == a.media_asset_id then max a.attempt_number other else other

unfoldable pub next_attempt_number : ℕ → List MediaAttempt → ℕ
next_attempt_number asset_id attempts = max_number asset_id attempts + 1

abbrev pub same_number : (asset_id number : ℕ) → MediaAttempt → Bool
same_number asset_id number a = (asset_id == a.media_asset_id) && number == a.attempt_number

-- The insertion, under `uq_media_attempt_number` and the primary key. The first conflict is told apart.
unfoldable pub insert_attempt : MediaAttempt → List MediaAttempt → Result (List MediaAttempt)
insert_attempt attempt table = do
  ensure
      (if any (same_number attempt.media_asset_id attempt.attempt_number) table
        then false
        else true)
      media_attempt_state_conflict
  ensure (if is_some (find attempt_key attempt.attempt_id table) then false else true)
      media_persistence
  ok (table ++ attempt ∷ [])

-- The row of `create_started_attempt`.
unfoldable pub new_attempt :
    (now attempt_id asset_id worker_id : ℕ) → LeasedJob → List MediaAttempt → MediaAttempt
unfolding next_attempt_number
new_attempt now attempt_id asset_id worker_id job attempts = record {
  attempt_id = attempt_id;
  media_asset_id = asset_id;
  job_id = job.job_id;
  worker_id = worker_id;
  job_attempt_number = job.attempt_count;
  attempt_number = next_attempt_number asset_id attempts;
  provider_job_id = none;
  status = started;
  started_at = now;
  completed_at = none;
  duration_ms = none;
  estimated_cost = none;
  error_code = none;
}

-- `create_started_attempt`, of an asset that the caller has locked
unfoldable pub create_started_attempt :
    (now attempt_id asset_id worker_id : ℕ)
    → LeasedJob
    → MediaStore
    → Result (MediaAttempt × MediaStore)
unfolding new_attempt insert_attempt
create_started_attempt now attempt_id asset_id worker_id job store = do
  let attempt = new_attempt now attempt_id asset_id worker_id job store.attempts
  attempts ← insert_attempt attempt store.attempts
  ok (attempt, record store { attempts = attempts })

-- What a provider has told of its work.
pub record Report : Type 0 where
  pub provider_job_id : Option ℕ
  pub estimated_cost : Option ℕ

-- `_apply_terminal_values`
unfoldable pub terminal_attempt :
    ℕ → MediaAttemptStatus → Option String → Report → MediaAttempt → MediaAttempt
terminal_attempt now status error_code report attempt = record attempt {
  status = status;
  completed_at = some now;
  duration_ms = some ((now - attempt.started_at) / 1000);
  error_code = error_code;
  provider_job_id = report.provider_job_id;
  estimated_cost = report.estimated_cost;
}

-- `_mark_terminal`, of which `mark_completed`, `mark_failed` and `mark_cancelled` are calls with a worker
unfoldable pub mark_terminal :
    (now attempt_id worker_id : ℕ)
    → MediaAttemptStatus
    → Option String
    → Report
    → MediaStore
    → MediaAttemptUpdateResult × MediaStore
unfolding terminal_attempt
mark_terminal now attempt_id worker_id status error_code report store =
    elim (find_attempt attempt_id store) [
      | none ↦ (not_found, store)
      | some attempt ↦
          if worker_id == attempt.worker_id
          then if is_started attempt.status
            then (
              updated,
              save_attempt (terminal_attempt now status error_code report attempt) store,
            )
            else (invalid_state, store)
          else (ownership_lost, store)
    ]

-- `terminalize_active_attempts`
abbrev pub terminalized :
    (now asset_id : ℕ) → MediaAttemptStatus → String → MediaAttempt → MediaAttempt
terminalized now asset_id status error_code a =
    if (asset_id == a.media_asset_id) && is_started a.status
    then terminal_attempt now status (some error_code)
        (record { provider_job_id = none; estimated_cost = none }) a
    else a

unfoldable pub terminalize_active :
    (now asset_id : ℕ) → MediaAttemptStatus → String → List MediaAttempt → List MediaAttempt
unfolding terminal_attempt
terminalize_active now asset_id status error_code [] = []
terminalize_active now asset_id status error_code (a ∷ rest) =
    terminalized now asset_id status error_code a
    ∷ terminalize_active now asset_id status error_code rest

-- `find_active_attempts`: whether there is one
unfoldable pub has_active_attempt : ℕ → List MediaAttempt → Bool
has_active_attempt asset_id [] = false
has_active_attempt asset_id (a ∷ rest) =
    ((asset_id == a.media_asset_id) && is_started a.status) || has_active_attempt asset_id rest

-- `owns_live_job_lease`
abbrev pub is_live_lease : (now worker_id : ℕ) → LeasedJob → Option Job → Bool
is_live_lease now worker_id leased none = false
is_live_lease now worker_id leased (some job) =
    is_running job.status
    && (is_worker worker_id job.locked_by
        && ((job.attempt_count == leased.attempt_count) && is_later now job.lease_expires_at))

unfoldable pub owns_live_job_lease : (now worker_id : ℕ) → LeasedJob → MediaStore → Bool
owns_live_job_lease now worker_id leased store =
    is_live_lease now worker_id leased (find_job leased.job_id store.queue)
