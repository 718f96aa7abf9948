-- ===== src/Media/Finalized.antt =====
-- What the completion of an attempt has checked and written.
use ai_game.Base.{
  String, ap, ◌∙◌, ℕ, ◌≡◌, refl, true, Option, none, some, arith, put, inl, inr, Option-cases,
}
use ai_game.Errors.{ok, Result-cases}
use ai_game.Constants.{generating, MediaAttemptStatus, processing, updated}
use ai_game.Media.Tables.{
  MediaAsset, MediaAttempt, Task, MediaStore, asset_key, attempt_key, find_asset, find_attempt,
  find_task, save_asset, save_attempt, save_task, MediaEvent, media_ready_for_review,
  stage_media_event,
}
use ai_game.Media.Repository.{
  Report, is_started, terminal_attempt, mark_terminal, owns_live_job_lease,
}
use ai_game.Media.Attempts.{
  Work, Output, report, delivered, completed_task, is_own_attempt, complete_task, finalize,
}

complete_task-kept :
    (now : ℕ) (output : Output) (id : Option ℕ) (s s' : MediaStore)
    → complete_task now output id s ≡ ok s'
    → (s'.assets ≡ s.assets) × (s'.attempts ≡ s.attempts) × (s'.queue ≡ s.queue)
unfolding complete_task
complete_task-kept now output id s s' h = elim (Option-cases (find_task id s)) [
  | inl f ↦ ground (arith, h, f)
  | inr (task, f) ↦ ground (arith, h, f)
]

-- The write of an attempt that is there, of the worker, and under way.
mark_terminal-found :
    (now id worker_id : ℕ) (status : MediaAttemptStatus) (code : Option String) (r : Report)
    (s : MediaStore) (a : MediaAttempt)
    → find_attempt id s ≡ some a
    → a.worker_id ≡ worker_id
    → is_started a.status ≡ true
    → mark_terminal now id worker_id status code r s
      ≡ (updated, save_attempt (terminal_attempt now status code r a) s)
unfolding mark_terminal
mark_terminal-found now id worker_id status code r s a f w t = ground (arith, f, w, t)

-- There is no task, or it is being processed.
pub data TaskAtWork (s : MediaStore) (id : Option ℕ) : Type 0 where
  untracked : find_task id s ≡ none → TaskAtWork s id
  at_work : (task : Task) → find_task id s ≡ some task → task.status ≡ processing → TaskAtWork s id

complete_task-TaskAtWork :
    (now : ℕ) (output : Output) (id : Option ℕ) (s s' : MediaStore)
    → complete_task now output id s ≡ ok s'
    → TaskAtWork s id
unfolding complete_task
complete_task-TaskAtWork now output id s s' h = elim (Option-cases (find_task id s)) [
  | inl f ↦ untracked f
  | inr (task, f) ↦ at_work task f (ground (arith, h, f))
]

TaskAtWork-saved :
    (asset : MediaAsset) (s : MediaStore) (id : Option ℕ)
    → TaskAtWork (save_asset asset s) id
    → TaskAtWork s id
TaskAtWork-saved asset s none (untracked f) = untracked refl
TaskAtWork-saved asset s none (at_work task f p) = at_work task f p
TaskAtWork-saved asset s (some i) (untracked f) = untracked f
TaskAtWork-saved asset s (some i) (at_work task f p) = at_work task f p

module _ (now id : ℕ) (work : Work) (output : Output) (s : MediaStore) where
  abbrev pub Checked : MediaAsset → MediaAttempt → Type 0
  Checked asset attempt =
      (owns_live_job_lease now work.worker_id work.job s ≡ true)
      × (find_asset work.asset_id s ≡ some asset)
      × (asset.status ≡ generating)
      × (find_attempt id s ≡ some attempt)
      × (is_own_attempt work attempt ≡ true)
      × TaskAtWork s asset.task_run_id

  abbrev pub Written : MediaAsset → MediaAttempt → MediaStore → Type 0
  Written asset attempt s' =
      (s'.assets ≡ put asset_key (delivered now output asset) s.assets)
      × (s'.attempts
          ≡ put attempt_key
              (terminal_attempt now MediaAttemptStatus.completed none (report output) attempt)
              s.attempts)
      × (s'.queue ≡ s.queue)

  guards :
      (s' : MediaStore)
      → finalize now id work output s ≡ ok (tt, s')
      → (asset : MediaAsset) × (attempt : MediaAttempt) × (marked : MediaStore)
        × (owns_live_job_lease now work.worker_id work.job s ≡ true)
        × (find_asset work.asset_id s ≡ some asset)
        × (asset.status ≡ generating)
        × (find_attempt id s ≡ some attempt)
        × (is_own_attempt work attempt ≡ true)
        × (complete_task now output asset.task_run_id (save_asset (delivered now output asset) s)
            ≡ ok marked)
        × (s'
            ≡ stage_media_event
                (media_ready_for_review work.asset_id)
                (mark_terminal now id work.worker_id MediaAttemptStatus.completed none
                  (report output)
                  marked).1)
  unfolding finalize
  guards s' h = elim (Option-cases (find_asset work.asset_id s)) [
    | inl f ↦ ground (arith, h, f)
    | inr (asset, f) ↦ elim (Option-cases (find_attempt id s)) [
      | inl g ↦ ground (arith, h, f, g)
      | inr (attempt, g) ↦
          elim (Result-cases (
            complete_task now output asset.task_run_id
              (save_asset (delivered now output asset) s))) [
                | inr (e, c) ↦ ground (arith, h, f, g, c)
                | inl (marked, c) ↦ (
                  asset,
                  attempt,
                  marked,
                  ground (arith, h, f, g, c),
                  f,
                  ground (arith, h, f, g, c),
                  g,
                  ground (arith, h, f, g, c),
                  c,
                  ground (arith, h, f, g, c),
                )
              ]
    ]
  ]

  staged_tables :
      (s' : MediaStore) (event : MediaEvent)
      → ((stage_media_event event s').assets ≡ s'.assets)
        × ((stage_media_event event s').attempts ≡ s'.attempts)
        × ((stage_media_event event s').queue ≡ s'.queue)
  unfolding stage_media_event
  staged_tables s' event = ground arith

  -- What is written, when the attempt of the worker is marked in the tables with the asset and the task.
  written :
      (asset : MediaAsset) (attempt : MediaAttempt) (marked : MediaStore)
      → find_attempt id s ≡ some attempt
      → is_own_attempt work attempt ≡ true
      → complete_task now output asset.task_run_id (save_asset (delivered now output asset) s)
        ≡ ok marked
      → (mark_terminal now id work.worker_id MediaAttemptStatus.completed none
            (report output)
            marked
          ≡ (
            updated,
            save_attempt
                (terminal_attempt now MediaAttemptStatus.completed none (report output) attempt)
                marked,
          ))
        × Written asset attempt (
            stage_media_event
              (media_ready_for_review work.asset_id)
              (mark_terminal now id work.worker_id MediaAttemptStatus.completed none
                (report output)
                marked).1)
  written asset attempt marked g own c =
      let (p, q, r) =
        complete_task-kept now output asset.task_run_id (save_asset (delivered now output asset) s)
          marked c in
      let e : find_attempt id marked ≡ some attempt = rw q g in
      let m =
        mark_terminal-found now id work.worker_id MediaAttemptStatus.completed none (report output)
          marked attempt e (ground (arith, own)) (ground (arith, own)) in
      let (x, y, z) =
        staged_tables
          (save_attempt
            (terminal_attempt now MediaAttemptStatus.completed none (report output) attempt) marked)
          (media_ready_for_review work.asset_id) in
      (m, rw m (x ∙ p, y ∙ ap (put attempt_key _) q, z ∙ r))

  -- An attempt is completed only by a worker that holds the live lease of the job, under the number of the
  -- job's attempt, while it is under way, its asset is being generated, and the task, if there is one, is
  -- being processed. Then exactly the asset is delivered and the attempt completed.
  pub finalize-Checked :
      (s' : MediaStore)
      → finalize now id work output s ≡ ok (tt, s')
      → (asset : MediaAsset) × (attempt : MediaAttempt) × Checked asset attempt
        × Written asset attempt s'
  finalize-Checked s' h =
      let (asset, attempt, marked, live, f, at, g, own, c, e) = guards s' h in
      let (_, w) = written asset attempt marked g own c in
      let (x, y, z) = w in
      (
        asset,
        attempt,
        (
          live,
          f,
          at,
          g,
          own,
          TaskAtWork-saved (delivered now output asset) s asset.task_run_id (
              complete_task-TaskAtWork now output asset.task_run_id
                (save_asset (delivered now output asset) s) marked c),
        ),
        (
          ap (λ (t : MediaStore). t.assets) e ∙ x,
          ap (λ (t : MediaStore). t.attempts) e ∙ y,
          ap (λ (t : MediaStore). t.queue) e ∙ z,
        ),
      )

  TaskAtWork-completes :
      (asset : MediaAsset)
      → TaskAtWork s asset.task_run_id
      → (marked : MediaStore) × (complete_task now output asset.task_run_id
            (save_asset (delivered now output asset) s)
          ≡ ok marked)
  unfolding complete_task
  TaskAtWork-completes asset (untracked f) =
      (save_asset (delivered now output asset) s, ground (arith, f))
  TaskAtWork-completes asset (at_work task f p) = (
    save_task (completed_task now output task) (save_asset (delivered now output asset) s),
    ground (arith, f, p),
  )

  -- And it is completed whenever all that holds.
  pub finalize_steps :
      (asset : MediaAsset) (attempt : MediaAttempt)
      → Checked asset attempt
      → (s' : MediaStore) × (finalize now id work output s ≡ ok (tt, s')) × Written asset attempt s'
  unfolding finalize
  finalize_steps asset attempt (live, f, at, g, own, t) =
      let (marked, c) = TaskAtWork-completes asset t in
      let (m, w) = written asset attempt marked g own c in
      (
        stage_media_event (media_ready_for_review work.asset_id)
            (mark_terminal now id work.worker_id MediaAttemptStatus.completed none (report output)
              marked).1,
        ground (arith, live, f, at, g, own, c, m),
        w,
      )
