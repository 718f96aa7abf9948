-- ===== src/Media/Delivery.antt =====
-- When a run of `generate_image` delivers its asset.
use ai_game.Base.{
  ℕ, ◌≡◌, refl, ap, ◌∙◌, String, true, false, Option, none, some, List, [], ◌∷◌, ◌++◌, arith, put,
  find, find-put, key-find, inl, inr, Option-cases,
}
use ai_game.Errors.{Error, Result, ok}
use ai_game.Constants.{MediaAssetStatus, MediaAttemptStatus}
use ai_game.Media.Tables.{
  MediaAsset, MediaAttempt, Task, MediaStore, asset_key, attempt_key, task_key, find_asset,
  find_attempt, find_task, save_asset, save_task, change_task,
}
use ai_game.Media.Repository.{
  Report, LeasedJob, new_attempt, next_attempt_number, is_started, has_active_attempt,
  owns_live_job_lease, terminal_attempt,
}
use ai_game.Media.Attempts.{
  Work, Output, image, storyboard, delivered, report, is_delivered, is_own_attempt, processing_task,
  finalize,
}
use ai_game.Media.Processor.{
  GeneratedImage, Circumstances, produced, run_attempt, except_attempt, generate_image,
}
use ai_game.Media.Lifecycle.{is_consistent, ensure_success_consistency}
use ai_game.Media.Calls.{change_task-kept, delivered_kept}
use ai_game.Media.Orphans.{change_task-queue, found_put}
use ai_game.Media.Finalized.{TaskAtWork, untracked, at_work, finalize_steps}
use ai_game.Media.Generation.{marked_asset, first_attempt, begun, started, begun_attempt}

-- Once the last of the attempts is over, none is under way.
inactive_put :
    (asset_id id : ℕ) (a a' : MediaAttempt) (xs : List MediaAttempt)
    → find attempt_key id xs ≡ none
    → a.attempt_id ≡ id
    → a'.attempt_id ≡ id
    → is_started a'.status ≡ false
    → has_active_attempt asset_id xs ≡ false
    → has_active_attempt asset_id (put attempt_key a' (xs ++ a ∷ [])) ≡ false
unfolding has_active_attempt
inactive_put asset_id id a a' [] f same same' over h = ground arith
inactive_put asset_id id a a' (x ∷ xs) f same same' over h =
    ground (arith, f, same, same', over, h, inactive_put asset_id id a a' xs)

untasked :
    (id : Option ℕ) (s : MediaStore) (xs : List MediaAttempt)
    → find_task id s ≡ none
    → find_task id (record s { attempts = xs }) ≡ none
untasked none s xs f = refl
untasked (some i) s xs f = f

found_task :
    (now : ℕ) (id : Option ℕ) (s : MediaStore) (xs : List MediaAttempt) (task : Task)
    → find_task id s ≡ some task
    → find_task id (record (save_task (processing_task now task) s) { attempts = xs })
      ≡ some (processing_task now task)
found_task now none s xs task f = ground (arith, f)
found_task now (some i) s xs task f = ground (
  arith,
  find-put task_key i (processing_task now task) s.tasks,
  key-find task_key i s.tasks task f,
  f,
)

processing-TaskAtWork :
    (now : ℕ) (id : Option ℕ) (s : MediaStore) (xs : List MediaAttempt)
    → TaskAtWork (record (change_task (processing_task now) id s) { attempts = xs }) id
processing-TaskAtWork now id s xs = elim (Option-cases (find_task id s)) [
  | inl f ↦ rw (change_task, f) (untracked (untasked id s xs f))
  | inr (task, f) ↦
      rw (change_task, f) (at_work (processing_task now task) (found_task now id s xs task f) refl)
]

delivered_ready :
    (now : ℕ) (output : Output) (a : MediaAsset)
    → (delivered now output a).status ≡ MediaAssetStatus.ready_for_review
delivered_ready now (image uri mime_type width height cost id) a = refl
delivered_ready now (storyboard input output cost) a = refl

owned :
    (now worker_id : ℕ) (job : LeasedJob) (s s' : MediaStore)
    → s'.queue ≡ s.queue
    → owns_live_job_lease now worker_id job s ≡ true
    → owns_live_job_lease now worker_id job s' ≡ true
unfolding owns_live_job_lease
owned now worker_id job s s' q h = rw q h

run_done :
    (error_code : Error → String) (c : Circumstances) (work : Work) (o : Output) (r : Report)
    (a : MediaAttempt) (t s' : MediaStore)
    → c.meanwhile t ≡ t
    → finalize c.finished_at a.attempt_id work o t ≡ ok (tt, s')
    → run_attempt error_code c work (ok o) r (ok (some a), t) ≡ (ok tt, s')
unfolding run_attempt except_attempt
run_done error_code c work o r a t s' alone f = rw (alone, f) refl

checked :
    (now id : ℕ) (s : MediaStore) (a : MediaAsset)
    → find_asset id s ≡ some a
    → a.status ≡ MediaAssetStatus.ready_for_review
    → has_active_attempt id s.attempts ≡ false
    → ensure_success_consistency now id s ≡ (ok tt, s)
unfolding ensure_success_consistency
checked now id s a f p h =
    let consistent : is_consistent id s ≡ true = ground (arith, f, p, h) in
    rw (ensure_success_consistency, consistent) refl

first_own :
    (work : Work) (a : MediaAttempt)
    → a.status ≡ MediaAttemptStatus.started
    → a.worker_id ≡ work.worker_id
    → a.job_id ≡ work.job.job_id
    → a.job_attempt_number ≡ work.job.attempt_count
    → a.attempt_number ≡ work.job.attempt_count
    → is_own_attempt work a ≡ true
first_own work a p q r t u = ground (arith, p, q, r, t, u)

-- The run of a job that holds its lease to the end, for an asset that waits to be generated, of which no other
-- attempt is under way and which has had an attempt for each earlier one of the job. If the provider's
-- image passes the checks and is stored, nobody asks to stop and the tables are left alone meanwhile, then
-- the run returns, the asset awaits its review, and the check of the worker finds nothing to mend.
pub generate_image-delivers :
    (error_code : Error → String) (max_bytes media_max_cost : ℕ) (c : Circumstances)
    (provider : Result GeneratedImage) (storage : Result ℕ) (work : Work) (s : MediaStore)
    (asset : MediaAsset) (output : Output) (checked_at : ℕ)
    → find_asset work.asset_id s ≡ some asset
    → is_delivered asset.status ≡ false
    → find_attempt c.attempt_id s ≡ none
    → next_attempt_number work.asset_id s.attempts ≡ work.job.attempt_count
    → has_active_attempt work.asset_id s.attempts ≡ false
    → owns_live_job_lease c.finished_at work.worker_id work.job s ≡ true
    → produced max_bytes media_max_cost provider storage c.checkpoint ≡ ok output
    → ((t : MediaStore) → c.meanwhile t ≡ t)
    → (s' : MediaStore) × (generate_image error_code max_bytes media_max_cost c provider storage
          work s
        ≡ (ok tt, s'))
      × (find_asset work.asset_id s'
          ≡ some (
              delivered c.finished_at output (marked_asset c.started_at c.attempt_id work s asset)))
      × (ensure_success_consistency checked_at work.asset_id s' ≡ (ok tt, s'))
unfolding generate_image new_attempt terminal_attempt
generate_image-delivers error_code max_bytes media_max_cost c provider storage work s asset output
      checked_at f d fresh n inactive live made alone =
    let begins = started c.started_at c.attempt_id work s asset c.attempt_id2 f d fresh in
    let waiting = marked_asset c.started_at c.attempt_id work s asset in
    let new = first_attempt c.started_at c.attempt_id work s asset in
    let tables = begun c.started_at c.attempt_id work s asset in
    let (p, _) =
      change_task-kept (processing_task c.started_at) asset.task_run_id (save_asset waiting s) in
    let q =
      change_task-queue (processing_task c.started_at) asset.task_run_id (save_asset waiting s) in
    let found =
      ap (find asset_key work.asset_id) p ∙ found_put work.asset_id asset waiting s.assets f refl in
    let (s', fin, w) = finalize_steps c.finished_at c.attempt_id work output tables waiting new (
      owned c.finished_at work.worker_id work.job s tables q live,
      found,
      refl,
      begun_attempt c.started_at c.attempt_id work s asset fresh,
      first_own work new refl refl refl refl n,
      processing-TaskAtWork c.started_at asset.task_run_id (save_asset waiting s) _,
    ) in
    let (x, y, _) = w in
    let ready = delivered c.finished_at output waiting in
    let is_there =
      ap (find asset_key work.asset_id) x
      ∙ found_put work.asset_id waiting ready tables.assets found
          (delivered_kept c.finished_at output waiting) in
    let over =
      ap (has_active_attempt work.asset_id) y
      ∙ inactive_put work.asset_id c.attempt_id new
          (terminal_attempt c.finished_at MediaAttemptStatus.completed none (report output) new)
          s.attempts fresh refl refl refl inactive in
    (
      s',
      rw (generate_image, begins, made)
          (run_done error_code c work output _ new tables s' (alone tables) fin),
      is_there,
      checked checked_at work.asset_id s' ready is_there
          (delivered_ready c.finished_at output waiting) over,
    )
