-- ===== src/Media/Calls.antt =====
-- What the transactions on media do to attempts and assets.
use ai_game.Base.{
  ℕ, ◌≡◌, refl, ap, ◌∙◌, inl, inr, String, Bool, true, false, ◌&&◌, Option, none, some, List, [],
  ◌∷◌, ◌++◌, arith, ◌==◌, any, put, find, key-find, Bool-cases, Option-cases,
}
use ai_game.Errors.{Result, ok, transact, settled, ◌>>=◌, Result-cases}
use ai_game.Constants.{
  MediaAssetStatus, requested, generating, MediaAttemptStatus, AppliedTaskStatus,
}
use ai_game.Media.Tables.{
  MediaAsset, MediaAttempt, Task, MediaStore, save_asset, asset_key, attempt_key, find_asset,
  find_attempt, find_task, change_task,
}
use ai_game.Media.Repository.{
  Report, LeasedJob, is_started, terminal_attempt, mark_terminal, new_attempt,
  create_started_attempt,
}
use ai_game.Media.Attempts.{
  image, storyboard, processing_task, Work, Output, report, delivered, is_delivered, is_ready,
  start_image, start_storyboard, finalize, finish_attempt,
}
use ai_game.Media.Lifecycle.{
  reset_task, is_closed, terminal_attempt_status, ended_asset, ended_task, task_status,
  media_status, is_reviewable, reconcile_task, reconcile_media, fail_orphan, is_consistent,
  ensure_success_consistency, prepare_task_retry, prepare_media_retry,
}
use ai_game.Media.Finalized.{finalize-Checked}
use ai_game.Media.Numbers.{next_fresh, started_fresh, started_taken}
use ai_game.Media.Rows.{completes, put-completes_new}
use ai_game.Media.Moves.{keeps, adds, edits, sweeps, same_assets, changes, Effect}

idle : (s s' : MediaStore) → s'.assets ≡ s.assets → s'.attempts ≡ s.attempts → Effect s s'
idle s s' p q = (keeps q, same_assets p)

closed_status : (cancelled : Bool) → is_reviewable (media_status cancelled) ≡ false
closed_status true = refl
closed_status false = refl

-- A change of the task is none of the rest.
pub change_task-kept :
    (f : Task → Task) (id : Option ℕ) (s : MediaStore)
    → ((change_task f id s).assets ≡ s.assets) × ((change_task f id s).attempts ≡ s.attempts)
change_task-kept f id s = elim (Option-cases (find_task id s)) [
  | inl h ↦ rw (change_task, h) (refl, refl)
  | inr (task, h) ↦ rw (change_task, h) (refl, refl)
]

-- The mark of one attempt.
mark_terminal-Effect :
    (now id worker_id : ℕ) (status : MediaAttemptStatus) (code : Option String) (r : Report)
    (s : MediaStore)
    → Effect s (mark_terminal now id worker_id status code r s).1
unfolding mark_terminal terminal_attempt
mark_terminal-Effect now id worker_id status code r s = elim (Option-cases (find_attempt id s)) [
  | inl f ↦ rw (mark_terminal, f) (idle s s refl refl)
  | inr (e, f) ↦ elim (Bool-cases (worker_id == e.worker_id)) [
    | inr w ↦ rw (mark_terminal, f, w) (idle s s refl refl)
    | inl w ↦ elim (Bool-cases (is_started e.status)) [
      | inr t ↦ rw (mark_terminal, f, w, t) (idle s s refl refl)
      | inl t ↦
          rw (mark_terminal, f, w, t)
            (
              edits e (terminal_attempt now status code r e)
                  (ap (λ i. find_attempt i s) (key-find attempt_key id s.attempts e f) ∙ f) t refl
                  refl refl refl,
              same_assets refl,
            )
    ]
  ]
]

pub finish_attempt-Effect :
    (now id worker_id : ℕ) (status : MediaAttemptStatus) (code : String) (r : Report)
    (s : MediaStore)
    → Effect s (finish_attempt now id worker_id status code r s)
unfolding finish_attempt
finish_attempt-Effect now id worker_id status code r s =
    mark_terminal-Effect now id worker_id status (some code) r s

-- The insertion of an attempt into tables whose asset was marked.
abbrev inserted : (now id : ℕ) → Work → MediaStore → Result (Option MediaAttempt × MediaStore)
inserted now id work marked = do
  (attempt, s') ← create_started_attempt now id work.asset_id work.worker_id work.job marked
  ok (some attempt, s')

inserted-Effect :
    (now id : ℕ) (work : Work) (a : MediaAsset) (s marked : MediaStore)
    → is_reviewable a.status ≡ false
    → marked.assets ≡ put asset_key a s.assets
    → marked.attempts ≡ s.attempts
    → Effect s (settled s (inserted now id work marked)).1
unfolding new_attempt
inserted-Effect now id work a s marked closed p q =
    let new = new_attempt now id work.asset_id work.worker_id work.job marked.attempts in
    elim (Option-cases (find attempt_key id marked.attempts)) [
      | inr (e, f) ↦
          rw (started_taken now id work.asset_id work.worker_id work.job marked e f)
            (idle s s refl refl)
      | inl f ↦ rw (started_fresh now id work.asset_id work.worker_id work.job marked f) (
        adds new (rw (← q) f) (rw (← q) (next_fresh work.asset_id marked.attempts))
            (ap (λ (t : List MediaAttempt). t ++ new ∷ []) q),
        changes a (inl closed) p,
      )
    ]

pub start_image-Effect :
    (now id : ℕ) (work : Work) (s : MediaStore) → Effect s (transact (start_image now id work) s).1
unfolding start_image
start_image-Effect now id work s = elim (Option-cases (find_asset work.asset_id s)) [
  | inl f ↦ rw (start_image, f) (idle s s refl refl)
  | inr (asset, f) ↦ elim (Bool-cases (is_delivered asset.status)) [
    | inl d ↦ rw (start_image, f, d) (idle s s refl refl)
    | inr d ↦
        let a = record asset { status = generating; error_code = none } in
        let (p, q) = change_task-kept (processing_task now) asset.task_run_id (save_asset a s) in
        rw (start_image, f, d) (inserted-Effect now id work a s _ refl p q)
  ]
]

pub start_storyboard-Effect :
    (request_is_valid has_prompt : Bool) (now id : ℕ) (work : Work) (s : MediaStore)
    → Effect s (transact (start_storyboard request_is_valid has_prompt now id work) s).1
unfolding start_storyboard
start_storyboard-Effect valid prompt now id work s =
    elim (Option-cases (find_asset work.asset_id s)) [
      | inl f ↦ rw (start_storyboard, f) (idle s s refl refl)
      | inr (asset, f) ↦ elim (Bool-cases (is_ready asset.status)) [
        | inl d ↦ rw (start_storyboard, f, d) (idle s s refl refl)
        | inr d ↦ elim (Option-cases (find_task asset.task_run_id s)) [
          | inl t ↦ rw (start_storyboard, f, d, t) (idle s s refl refl)
          | inr (task, t) ↦ elim (Bool-cases valid) [
            | inr v ↦ rw (start_storyboard, f, d, t, v) (idle s s refl refl)
            | inl v ↦ elim (Bool-cases prompt) [
              | inr q ↦ rw (start_storyboard, f, d, t, v, q) (idle s s refl refl)
              | inl q ↦
                  rw (start_storyboard, f, d, t, v, q)
                    (inserted-Effect now id work (record asset { status = generating }) s _ refl
                      refl refl)
            ]
          ]
        ]
      ]
    ]

pub delivered_kept :
    (now : ℕ) (output : Output) (a : MediaAsset)
    → (delivered now output a).media_asset_id ≡ a.media_asset_id
delivered_kept now (image uri mime_type width height cost id) a = refl
delivered_kept now (storyboard input output cost) a = refl

own_completes : (i j : ℕ) → i ≡ j → ((i == j) && true) ≡ true
own_completes i j h = ground arith

pub finalize-Effect :
    (now id worker_id : ℕ) (job : LeasedJob) (output : Output) (s : MediaStore) (e : MediaAttempt)
    → find_attempt id s ≡ some e
    → Effect s
        (transact
          (finalize now id
            (record { asset_id = e.media_asset_id; worker_id = worker_id; job = job })
            output)
          s).1
unfolding terminal_attempt
finalize-Effect now id worker_id job output s e own =
    let work : Work = record { asset_id = e.media_asset_id; worker_id = worker_id; job = job } in
    elim (Result-cases (finalize now id work output s)) [
      | inr (x, h) ↦ rw h (idle s s refl refl)
      | inl ((_, s'), h) ↦
          let (asset, attempt, checked, w) = finalize-Checked now id work output s s' h in
          let (_, f, _, g, is_own, _) = checked in
          let (x, y, _) = w in
          let is_e : e ≡ attempt = ground (arith, own, g) in
          let e' = terminal_attempt now MediaAttemptStatus.completed none (report output) attempt in
          let key = key-find attempt_key id s.attempts attempt g in
          let found = ap (λ i. find_attempt i s) key ∙ g in
          let is_asset : asset.media_asset_id ≡ attempt.media_asset_id =
            key-find asset_key e.media_asset_id s.assets asset f
            ∙ ap (λ (a : MediaAttempt). a.media_asset_id) is_e in
          rw h (
            edits attempt e' found (ground (arith, is_own)) refl refl refl y,
            changes (delivered now output asset)
                (inr (
                  ap (any (completes (delivered now output asset).media_asset_id)) y
                  ∙ put-completes_new (delivered now output asset).media_asset_id id attempt e'
                      s.attempts g key
                      (own_completes (delivered now output asset).media_asset_id
                        attempt.media_asset_id (delivered_kept now output asset ∙ is_asset))))
                x,
          )
    ]

pub reconcile_media-Effect :
    (now : ℕ) (cancelled : Bool) (code : String) (id : ℕ) (s : MediaStore)
    → Effect s (reconcile_media now cancelled code id s)
unfolding reconcile_media
reconcile_media-Effect now cancelled code id s =
    let status = terminal_attempt_status cancelled in
    elim (Option-cases (find_asset id s)) [
      | inl f ↦ rw (reconcile_media, f) (sweeps now id status code refl, same_assets refl)
      | inr (asset, f) ↦ elim (Bool-cases (is_reviewable asset.status)) [
        | inl r ↦ rw (reconcile_media, f, r) (sweeps now id status code refl, same_assets refl)
        | inr r ↦
            let ended = ended_asset (media_status cancelled) code now asset in
            let (p, q) =
              change_task-kept (ended_task (task_status cancelled) code now) asset.task_run_id _ in
            rw (reconcile_media, f, r)
              (sweeps now id status code q, changes ended (inl (closed_status cancelled)) p)
      ]
    ]

fail_orphan-Effect : (now id : ℕ) (s : MediaStore) → Effect s (fail_orphan now id s)
unfolding fail_orphan
fail_orphan-Effect now id s = elim (Option-cases (find_asset id s)) [
  | inl f ↦
      rw (fail_orphan, f)
        (sweeps now id MediaAttemptStatus.failed "MEDIA_ATTEMPT_ORPHANED" refl, same_assets refl)
  | inr (asset, f) ↦
      let ended = ended_asset MediaAssetStatus.failed "MEDIA_ATTEMPT_ORPHANED" now asset in
      let (p, q) =
        change_task-kept (ended_task AppliedTaskStatus.failed "MEDIA_ATTEMPT_ORPHANED" now)
          asset.task_run_id _ in
      rw (fail_orphan, f)
        (
          sweeps now id MediaAttemptStatus.failed "MEDIA_ATTEMPT_ORPHANED" q,
          changes ended (inl refl) p,
        )
]

pub ensure_success_consistency-Effect :
    (now id : ℕ) (s : MediaStore) → Effect s (ensure_success_consistency now id s).1
unfolding ensure_success_consistency
ensure_success_consistency-Effect now id s = elim (Bool-cases (is_consistent id s)) [
  | inl h ↦ rw (ensure_success_consistency, h) (idle s s refl refl)
  | inr h ↦ rw (ensure_success_consistency, h) (fail_orphan-Effect now id s)
]

pub reconcile_task-Effect :
    (now : ℕ) (cancelled : Bool) (code : String) (id : ℕ) (s : MediaStore)
    → Effect s (reconcile_task now cancelled code id s)
unfolding reconcile_task
reconcile_task-Effect now cancelled code id s = elim (Option-cases (find_task (some id) s)) [
  | inl f ↦ rw (reconcile_task, f) (idle s s refl refl)
  | inr (task, f) ↦ elim (Bool-cases (is_closed task.status)) [
    | inl c ↦ rw (reconcile_task, f, c) (idle s s refl refl)
    | inr c ↦ rw (reconcile_task, f, c) (idle s _ refl refl)
  ]
]

pub prepare_media_retry-Effect : (id : ℕ) (s : MediaStore) → Effect s (prepare_media_retry id s)
unfolding prepare_media_retry
prepare_media_retry-Effect id s = elim (Option-cases (find_asset id s)) [
  | inl f ↦ rw (prepare_media_retry, f) (idle s s refl refl)
  | inr (asset, f) ↦
      let a = record asset { status = requested; error_code = none; completed_at = none } in
      let (p, q) = change_task-kept reset_task asset.task_run_id (save_asset a s) in
      rw (prepare_media_retry, f) (keeps q, changes a (inl refl) p)
]

pub prepare_task_retry-Effect : (id : ℕ) (s : MediaStore) → Effect s (prepare_task_retry id s)
unfolding prepare_task_retry
prepare_task_retry-Effect id s =
    let (p, q) = change_task-kept reset_task (some id) s in idle s _ p q
