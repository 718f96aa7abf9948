-- ===== src/Media/Orphans.antt =====
-- An attempt that a worker has left under way fails the asset of the next one that succeeds.
use ai_game.Base.{
  ℕ, ◌≡◌, refl, ap, ◌∙◌, Bool, true, false, Option, some, String, List, arith, put, find, find-put,
  key-find, inl, inr, Option-cases, Bool-cases,
}
use ai_game.Errors.{Result, ok, err, Result-cases, media_attempt_reconciliation}
use ai_game.Constants.{MediaAssetStatus, AppliedTaskStatus, JobStatus}
use ai_game.Jobs.Tables.{Job, JobDb}
use ai_game.Jobs.Finish.{fail}
use ai_game.Media.Tables.{MediaAsset, MediaStore, Task, change_task, asset_key, find_asset}
use ai_game.Media.Repository.{has_active_attempt}
use ai_game.Media.Attempts.{Work}
use ai_game.Jobs.Leases.{required_live_lease}
use ai_game.Media.Lifecycle.{
  is_reviewable, ended_asset, ended_task, is_consistent, fail_orphan, reconcile_media,
  ensure_success_consistency,
}
use ai_game.Media.Calls.{change_task-kept}
use ai_game.Jobs.Retry.{classify_job_error}
use ai_game.Media.Worker.{
  WorkerCall, is_dead, job_error_code, reconcile_dead, fail_job, except_job, process,
}

-- The row after a write to it.
pub found_put :
    (id : ℕ) (a a' : MediaAsset) (t : List MediaAsset)
    → find asset_key id t ≡ some a
    → a'.media_asset_id ≡ a.media_asset_id
    → find asset_key id (put asset_key a' t) ≡ some a'
found_put id a a' t f same =
    ground (arith, find-put asset_key id a' t, key-find asset_key id t a f, f, same)

-- The asset is there, and has failed.
abbrev pub HasFailed : ℕ → MediaStore → Type 0
HasFailed id s =
    (a : MediaAsset) × (find_asset id s ≡ some a) × (a.status ≡ MediaAssetStatus.failed)

fail_orphan-HasFailed :
    (now id : ℕ) (s : MediaStore) (a : MediaAsset)
    → find_asset id s ≡ some a
    → HasFailed id (fail_orphan now id s)
unfolding fail_orphan
fail_orphan-HasFailed now id s a f =
    let a' = ended_asset MediaAssetStatus.failed "MEDIA_ATTEMPT_ORPHANED" now a in
    let (p, _) =
      change_task-kept (ended_task AppliedTaskStatus.failed "MEDIA_ATTEMPT_ORPHANED" now)
        a.task_run_id _ in
    rw (fail_orphan, f) (a', ap (find asset_key id) p ∙ found_put id a a' s.assets f refl, refl)

reconcile_media-HasFailed :
    (now : ℕ) (code : String) (id : ℕ) (s : MediaStore)
    → HasFailed id s
    → HasFailed id (reconcile_media now false code id s)
unfolding reconcile_media
reconcile_media-HasFailed now code id s (a, f, h) =
    let a' = ended_asset MediaAssetStatus.failed code now a in
    let (p, _) = change_task-kept (ended_task AppliedTaskStatus.failed code now) a.task_run_id _ in
    rw (reconcile_media, f, h)
      (a', ap (find asset_key id) p ∙ found_put id a a' s.assets f refl, refl)

-- A job that is failed for good.
failed_for_good :
    (now id worker_id : ℕ) (code : String) (base maximum : ℕ) (db : JobDb) (job : Job) (db' : JobDb)
    → fail now id worker_id code false base maximum db ≡ ok (job, db')
    → job.status ≡ JobStatus.dead_letter
unfolding fail
failed_for_good now id worker_id code base maximum db job db' h =
    elim (Result-cases (required_live_lease id worker_id now db)) [
      | inr (e, r) ↦ ground (arith, h, r)
      | inl (found, r) ↦ ground (arith, h, r)
    ]

pub change_task-queue :
    (f : Task → Task) (id : Option ℕ) (s : MediaStore) → (change_task f id s).queue ≡ s.queue
change_task-queue f id s = ground arith

fail_orphan-queue : (now id : ℕ) (s : MediaStore) → (fail_orphan now id s).queue ≡ s.queue
unfolding fail_orphan
fail_orphan-queue now id s = elim (Option-cases (find_asset id s)) [
  | inl f ↦ rw (fail_orphan, f) refl
  | inr (a, f) ↦ rw (fail_orphan, f) (change_task-queue _ a.task_run_id _)
]

reconcile_media-queue :
    (now : ℕ) (cancelled : Bool) (code : String) (id : ℕ) (s : MediaStore)
    → (reconcile_media now cancelled code id s).queue ≡ s.queue
unfolding reconcile_media
reconcile_media-queue now cancelled code id s = elim (Option-cases (find_asset id s)) [
  | inl f ↦ rw (reconcile_media, f) refl
  | inr (a, f) ↦ elim (Bool-cases (is_reviewable a.status)) [
    | inl r ↦ rw (reconcile_media, f, r) refl
    | inr r ↦ rw (reconcile_media, f, r) (change_task-queue _ a.task_run_id _)
  ]
]

module _ (w : WorkerCall) (work : Work) where
  abbrev orphan_code : String
  orphan_code = job_error_code w.error_code media_attempt_reconciliation

  reconcile_dead-HasFailed :
      (result : Result Job) (s : MediaStore)
      → HasFailed work.asset_id s
      → HasFailed work.asset_id (reconcile_dead w work media_attempt_reconciliation (result, s)).1
  reconcile_dead-HasFailed (err e) s h = h
  reconcile_dead-HasFailed (ok job) s h = elim (Bool-cases (is_dead job.status)) [
    | inl d ↦ rw d (reconcile_media-HasFailed w.reconciled_at orphan_code work.asset_id s h)
    | inr d ↦ rw d h
  ]

  orphaned :
      (s : MediaStore)
      → has_active_attempt work.asset_id s.attempts ≡ true
      → w.lease_lost ≡ false
      → process w work (ok tt, s)
        ≡ fail_job w work media_attempt_reconciliation (fail_orphan w.checked_at work.asset_id s)
  unfolding process ensure_success_consistency except_job
  orphaned s h l =
      let broken : is_consistent work.asset_id s ≡ false = ground (arith, h) in
      rw (process, l, ensure_success_consistency, broken) refl

  failed-queue :
      (job : Job) (queue : JobDb) (t : MediaStore)
      → fail w.ended_at work.job.job_id work.worker_id orphan_code false w.job_retry_base_seconds
          w.job_retry_max_seconds t.queue
        ≡ ok (job, queue)
      → (fail_job w work media_attempt_reconciliation t).1.queue ≡ queue
  unfolding fail_job classify_job_error
  failed-queue job queue t h = elim (Bool-cases (is_dead job.status)) [
    | inl d ↦
        rw (fail_job, h, d)
          (reconcile_media-queue w.reconciled_at false orphan_code work.asset_id _)
    | inr d ↦ rw (fail_job, h, d) refl
  ]

  -- The handler of a job has returned, in tables where another attempt at its asset is under way, as that of
  -- a worker that is gone. Then the asset ends FAILED, although it was delivered, and if the worker may end
  -- the job, the job is among the dead letters and not tried again.
  pub orphan_fails :
      (s : MediaStore) (a : MediaAsset) (job : Job) (queue : JobDb)
      → has_active_attempt work.asset_id s.attempts ≡ true
      → find_asset work.asset_id s ≡ some a
      → w.lease_lost ≡ false
      → fail w.ended_at work.job.job_id work.worker_id orphan_code false w.job_retry_base_seconds
          w.job_retry_max_seconds s.queue
        ≡ ok (job, queue)
      → HasFailed work.asset_id (process w work (ok tt, s)).1
        × (job.status ≡ JobStatus.dead_letter)
        × ((process w work (ok tt, s)).1.queue ≡ queue)
  unfolding fail_job
  orphan_fails s a job queue h f l ended =
      let failed = fail_orphan-HasFailed w.checked_at work.asset_id s a f in
      let dead =
        failed_for_good w.ended_at work.job.job_id work.worker_id orphan_code
          w.job_retry_base_seconds w.job_retry_max_seconds s.queue job queue ended in
      let q = fail_orphan-queue w.checked_at work.asset_id s in
      (
        rw (orphaned s h l) (reconcile_dead-HasFailed _ _ failed),
        dead,
        rw (orphaned s h l)
            (failed-queue job queue (fail_orphan w.checked_at work.asset_id s) (rw q ended)),
      )
