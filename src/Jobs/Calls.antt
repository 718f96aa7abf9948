-- ===== src/Jobs/Calls.antt =====
-- The operations as a family, and histories: the calls on the queue one after another, each committed or,
-- when it raises, rolled back.
use ai_game.Base.{ℕ, ◌≤◌, refl, Bool, List, [], ◌∷◌}
use ai_game.Errors.{Result, ok, err}
use ai_game.Jobs.Tables.{JobDb}
use ai_game.Jobs.Leases.{heartbeat, lease_batch}
use ai_game.Jobs.Finish.{cancel, retry, reclaim_stale}
use ai_game.Jobs.Queue.{JobRequest, enqueue}
use ai_game.Jobs.Sound.{Sound, EndsSound}
use ai_game.Jobs.Endings.{Ending, end_lease, end_lease-told}
use ai_game.Jobs.Leasing.{lease_batch-Sweeps}
use ai_game.Jobs.Reclaiming.{reclaim_stale-Sweeps}
use ai_game.Jobs.Control.{heartbeat-Sound, cancel-EndsSound, retry-EndsSound}
use ai_game.Jobs.Enqueue.{enqueue-EndsSound}

pub data Call : Type 0 where
  enqueued : JobRequest → Call
  leasing : (held : ℕ → Bool) (worker limit lease_seconds : ℕ) → Call
  beating : (i worker lease_seconds : ℕ) → Call
  ending : Ending → (i worker : ℕ) → Call
  cancelling_job retrying : (i : ℕ) → Call
  reclaiming : (held : ℕ → Bool) (limit base max : ℕ) → Call

-- The tables after a transaction: as before, if it raised.
abbrev pub after {ℓ} : {A : Type ℓ} → JobDb → Result (A × JobDb) → JobDb
after db (ok (a, db')) = db'
after db (err e) = db

-- One call at the time `now`, under the setting `job_max_attempts`.
unfoldable pub perform : ℕ → ℕ → Call → JobDb → JobDb
perform job_max_attempts now (enqueued q) db = after db (enqueue job_max_attempts now q db)
perform job_max_attempts now (leasing held worker limit lease_seconds) db =
    after db (lease_batch now held worker limit lease_seconds db)
perform job_max_attempts now (beating i worker lease_seconds) db =
    (heartbeat now i worker lease_seconds db).1
perform job_max_attempts now (ending e i worker) db = after db (end_lease e now i worker db)
perform job_max_attempts now (cancelling_job i) db = after db (cancel now i db)
perform job_max_attempts now (retrying i) db = after db (retry now i db)
perform job_max_attempts now (reclaiming held limit base max) db =
    after db (reclaim_stale now held limit base max db)

-- A history: the calls with their times, the first call first.
unfoldable pub replay : ℕ → List (ℕ × Call) → JobDb → JobDb
replay job_max_attempts [] db = db
replay job_max_attempts ((now, call) ∷ rest) db =
    replay job_max_attempts rest (perform job_max_attempts now call db)

abbrev pub no_jobs : JobDb
no_jobs = record { jobs = []; attempts = [] }

pub no_jobs-Sound : Sound no_jobs
no_jobs-Sound = record {
  keys = tt;
  rows = λ j job h. absurd (let e = h in cc e);
  orphans = λ j h. refl;
}

after-Sound {ℓ} :
    {A : Type ℓ} (db : JobDb) (r : Result (A × JobDb)) → Sound db → EndsSound r → Sound (after db r)
after-Sound db (ok (a, db')) s e = e
after-Sound db (err x) s e = s

module _ (job_max_attempts : ℕ) (positive : 1 ≤ job_max_attempts) where
  pub perform-Sound :
      (now : ℕ) (call : Call) (db : JobDb) → Sound db → Sound (perform job_max_attempts now call db)
  unfolding perform
  perform-Sound now (enqueued q) db s =
      after-Sound db (enqueue job_max_attempts now q db) s
        (enqueue-EndsSound job_max_attempts now q db s positive)
  perform-Sound now (leasing held worker limit lease_seconds) db s =
      let (db', e, w, _, _) = lease_batch-Sweeps now held worker limit lease_seconds db s in
      rw e w.sound
  perform-Sound now (beating i worker lease_seconds) db s =
      heartbeat-Sound now i db s worker lease_seconds
  perform-Sound now (ending e i worker) db s =
      after-Sound db (end_lease e now i worker db) s (end_lease-told e now i worker db s).1
  perform-Sound now (cancelling_job i) db s =
      after-Sound db (cancel now i db) s (cancel-EndsSound now i db s)
  perform-Sound now (retrying i) db s =
      after-Sound db (retry now i db) s (retry-EndsSound now i db s)
  perform-Sound now (reclaiming held limit base max) db s =
      let (db', e, w, _, _) = reclaim_stale-Sweeps now held limit base max db s in rw e w.sound

  -- Every history leaves sound tables sound: one row per job identifier; a lease exactly on a running job;
  -- one attempt under way per running job, that of its current number, and none otherwise; and an attempt
  -- left to every waiting job, never more than `max_attempts`. New jobs get at least one attempt.
  pub replay-Sound :
      (calls : List (ℕ × Call)) (db : JobDb) → Sound db → Sound (replay job_max_attempts calls db)
  unfolding replay
  replay-Sound [] db s = s
  replay-Sound ((now, call) ∷ rest) db s =
      replay-Sound rest (perform job_max_attempts now call db) (perform-Sound now call db s)
