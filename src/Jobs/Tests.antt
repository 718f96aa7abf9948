-- ===== src/Jobs/Tests.antt =====
-- The queue on concrete tables.
use ai_game.Base.{
  ℕ, suc, ◌*◌, ◌≤◌, ◌≡◌, refl, Bool, true, false, none, some, List, [], ◌∷◌, arith, length, map,
  All,
}
use ai_game.Errors.{ok, err, job_conflict}
use ai_game.Constants.{JobStatus}
use ai_game.Jobs.Retry.{min, retry_delay_seconds}
use ai_game.Jobs.Tables.{Job, JobDb, find_job}
use ai_game.Jobs.Attempts.{finish_attempt, add_attempt}
use ai_game.Jobs.Leases.{
  owns_live_lease, required_live_lease, leasable, leased_before, lease_job, for_each, lease_batch,
  leased,
}
use ai_game.Jobs.Finish.{
  cancelled_row, cancel, complete, retry, is_stale, expires_before, reclaim_job, reclaim_stale,
}
use ai_game.Jobs.Queue.{JobRequest, requested_job, enqueue}
use ai_game.Jobs.Sound.{Sound, EndsSound}
use ai_game.Jobs.Endings.{completed, failing, end_lease, ended_row, ended_db}
use ai_game.Jobs.Fencing.{fenced, end_lease-fenced}
use ai_game.Jobs.Batches.{Sweeps}
use ai_game.Jobs.Leasing.{chosen, IsDue, lease_batch-Sweeps}
use ai_game.Jobs.Reclaiming.{stale, reclaimed, IsAbandoned, reclaim_stale-Sweeps}
use ai_game.Jobs.Repeated.{enqueue-idempotent}
use ai_game.Jobs.Calls.{
  Call, enqueued, leasing, ending, cancelling_job, after, perform, replay, no_jobs, no_jobs-Sound,
  replay-Sound,
}
use ai_game.Jobs.Succeeded.{succeeded_stays}
use ai_game.Jobs.Delay.{retry_delay-doubles}
use ai_game.Jobs.Stranded.{cancelled_job-strands}

abbrev unheld : ℕ → Bool
unheld i = false

abbrev asked_for : JobRequest
asked_for = record {
  job_id = 1;
  idempotency_key = 77;
  priority = 50;
  max_attempts = none;
  available_at = none;
}

-- A job is added, and leased by worker 9 for a minute.
abbrev leasing_history : List (ℕ × Call)
leasing_history = (10, enqueued asked_for) ∷ (20, leasing unheld 9 10 60) ∷ []

abbrev waiting_db : JobDb
waiting_db = record { jobs = requested_job 5 10 asked_for ∷ []; attempts = [] }

abbrev running_db : JobDb
running_db = replay 5 leasing_history no_jobs

waiting_db-Sound : Sound waiting_db
unfolding replay perform enqueue
waiting_db-Sound =
    replay-Sound 5 (omega arith) ((10, enqueued asked_for) ∷ []) no_jobs no_jobs-Sound

running_db-Sound : Sound running_db
running_db-Sound = replay-Sound 5 (omega arith) leasing_history no_jobs no_jobs-Sound

replay-Sound_example : Sound running_db
replay-Sound_example = replay-Sound 5 (omega arith) leasing_history no_jobs no_jobs-Sound

abbrev running_job : Job
running_job = leased 9 60 20 (requested_job 5 10 asked_for)

running_found : find_job 1 running_db ≡ some running_job
unfolding replay perform enqueue lease_batch leasable leased_before lease_job for_each add_attempt
running_found = refl

end_lease-fenced_example :
    (end_lease completed 30 1 9 running_db
      ≡ fenced completed 30 9 running_db (find_job 1 running_db))
    × EndsSound (end_lease completed 30 1 9 running_db)
end_lease-fenced_example = end_lease-fenced completed 30 1 9 running_db running_db-Sound

lease_batch-Sweeps_example :
    (db' : JobDb) × (lease_batch 20 unheld 9 10 60 waiting_db
      ≡ ok (map (leased 9 60 20) (chosen 20 unheld 10 waiting_db), db'))
    × Sweeps (leased 9 60 20) (chosen 20 unheld 10 waiting_db) waiting_db db'
    × (length (chosen 20 unheld 10 waiting_db) ≤ 10)
    × All (IsDue 20) (chosen 20 unheld 10 waiting_db)
lease_batch-Sweeps_example = lease_batch-Sweeps 20 unheld 9 10 60 waiting_db waiting_db-Sound

chosen_one : length (chosen 20 unheld 10 waiting_db) ≡ 1
unfolding leasable leased_before
chosen_one = refl

leased_by_nine :
    lease_batch 20 unheld 9 10 60 waiting_db
    ≡ ok (running_job ∷ [], after waiting_db (lease_batch 20 unheld 9 10 60 waiting_db))
unfolding lease_batch leasable leased_before lease_job for_each add_attempt
leased_by_nine = refl

reclaim_stale-Sweeps_example :
    (db' : JobDb) × (reclaim_stale 70000000 unheld 10 5 300 running_db
      ≡ ok (map (reclaimed 70000000 5 300) (stale 70000000 unheld 10 running_db), db'))
    × Sweeps (reclaimed 70000000 5 300) (stale 70000000 unheld 10 running_db) running_db db'
    × (length (stale 70000000 unheld 10 running_db) ≤ 10)
    × All (IsAbandoned 70000000) (stale 70000000 unheld 10 running_db)
reclaim_stale-Sweeps_example =
    reclaim_stale-Sweeps 70000000 unheld 10 5 300 running_db running_db-Sound

added : enqueue 5 10 asked_for no_jobs ≡ ok (requested_job 5 10 asked_for, waiting_db)
unfolding enqueue
added = refl

-- In between the job is leased, and done.
enqueue-idempotent_example :
    let later =
      replay 5 ((20, leasing unheld 9 10 60) ∷ (30, ending completed 1 9) ∷ []) waiting_db in
    (job' : Job) × (enqueue 5 40 (record asked_for { job_id = 2 }) later ≡ ok (job', later))
    × (job'.job_id ≡ 1)
    × (find_job 1 later ≡ some job')
enqueue-idempotent_example =
    enqueue-idempotent 5 (omega arith) 10 40 asked_for (record asked_for { job_id = 2 })
      (requested_job 5 10 asked_for) no_jobs waiting_db refl added waiting_db-Sound
      ((20, leasing unheld 9 10 60) ∷ (30, ending completed 1 9) ∷ [])

abbrev expired_db : JobDb
expired_db = after running_db (reclaim_stale 70000000 unheld 10 5 300 running_db)

reclaimed_one :
    reclaim_stale 70000000 unheld 10 5 300 running_db
    ≡ ok (reclaimed 70000000 5 300 running_job ∷ [], expired_db)
unfolding replay perform enqueue lease_batch leasable leased_before lease_job for_each add_attempt
    reclaim_stale is_stale expires_before reclaim_job finish_attempt
reclaimed_one = refl

abbrev finished_db : JobDb
finished_db = replay 5 ((30, ending completed 1 9) ∷ []) running_db

finished_found : find_job 1 finished_db ≡ some (ended_row completed 30 running_job)
unfolding replay perform enqueue lease_batch leasable leased_before lease_job for_each add_attempt
    end_lease complete required_live_lease owns_live_lease finish_attempt
finished_found = refl

-- After its success the job is cancelled, and leases are asked for.
succeeded_stays_example :
    find_job 1 (replay 5 ((40, cancelling_job 1) ∷ (50, leasing unheld 8 10 60) ∷ []) finished_db)
    ≡ some (ended_row completed 30 running_job)
succeeded_stays_example =
    succeeded_stays 5 (omega arith) ((40, cancelling_job 1) ∷ (50, leasing unheld 8 10 60) ∷ []) 1
      (ended_row completed 30 running_job) finished_db
      (replay-Sound 5 (omega arith) ((30, ending completed 1 9) ∷ []) running_db running_db-Sound)
      finished_found refl

retry_delay-doubles_example :
    (retry_delay_seconds 1 5 300 ≡ 5)
    × (retry_delay_seconds (suc (suc 3)) 5 300 ≡ min (2 * retry_delay_seconds (suc 3) 5 300) 300)
    × (5 ≤ retry_delay_seconds (suc 3) 5 300)
    × (retry_delay_seconds (suc 3) 5 300 ≤ 300)
retry_delay-doubles_example = retry_delay-doubles 5 300 3 (omega arith)

abbrev stopping_db : JobDb
stopping_db = replay 5 ((25, cancelling_job 1) ∷ []) running_db

abbrev stopping_job : Job
stopping_job = record running_job { cancel_requested = true }

stopping_found : find_job 1 stopping_db ≡ some stopping_job
unfolding replay perform enqueue lease_batch leasable leased_before lease_job for_each add_attempt
    cancel cancelled_row
stopping_found = refl

stopping_owned : owns_live_lease stopping_job 9 30 ≡ true
unfolding owns_live_lease
stopping_owned = refl

cancelled_job-strands_example :
    (end_lease (failing "TIMEOUT" true 5 300) 30 1 9 stopping_db
      ≡ ok (
        ended_row (failing "TIMEOUT" true 5 300) 30 stopping_job,
        ended_db (failing "TIMEOUT" true 5 300) 30 9 stopping_job stopping_db,
      ))
    × ((ended_row (failing "TIMEOUT" true 5 300) 30 stopping_job).status ≡ JobStatus.pending)
    × (find_job 1 (
          perform 5 90000000
            (leasing unheld 8 10 60)
            (ended_db (failing "TIMEOUT" true 5 300) 30 9 stopping_job stopping_db))
        ≡ some (ended_row (failing "TIMEOUT" true 5 300) 30 stopping_job))
    × (retry 90000000 1 (ended_db (failing "TIMEOUT" true 5 300) 30 9 stopping_job stopping_db)
        ≡ err job_conflict)
cancelled_job-strands_example =
    cancelled_job-strands 30 1 9 5 300 "TIMEOUT" stopping_job stopping_db
      (replay-Sound 5 (omega arith) ((25, cancelling_job 1) ∷ []) running_db running_db-Sound)
      stopping_found stopping_owned refl (omega arith) 90000000 90000000 5 8 10 60 unheld
