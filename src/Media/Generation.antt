-- ===== src/Media/Generation.antt =====
-- When a run of `generate_image` delivers its asset, and when it never does.
use ai_game.Base.{
  ℕ, ◌≡◌, ◌≢◌, refl, sym, ◌∙◌, String, true, false, none, some, [], ◌∷◌, ◌++◌, arith,
  find-append_one, inl, inr,
}
use ai_game.Errors.{Error, Result, ok, err, Result-cases}
use ai_game.Constants.{generating}
use ai_game.Media.Tables.{
  MediaAsset, MediaAttempt, MediaStore, attempt_key, find_asset, find_attempt, save_asset,
  change_task,
}
use ai_game.Media.Repository.{Report, new_attempt, next_attempt_number}
use ai_game.Media.Attempts.{
  is_own_attempt, Work, Output, is_delivered, processing_task, start_image, start_attempt, finalize,
}
use ai_game.Media.Processor.{
  GeneratedImage, Circumstances, produced, run_attempt, except_attempt, generate_image,
}
use ai_game.Media.Numbers.{started_fresh}
use ai_game.Media.Calls.{change_task-kept}
use ai_game.Media.Finalized.{finalize-Checked}

-- The tables in which the insertion of the attempt is made, and those that it leaves.
module _ (now id : ℕ) (work : Work) (s : MediaStore) (asset : MediaAsset) where
  abbrev pub marked_asset : MediaAsset
  marked_asset = record asset { status = generating; error_code = none }

  abbrev pub marked : MediaStore
  marked = change_task (processing_task now) asset.task_run_id (save_asset marked_asset s)

  abbrev pub first_attempt : MediaAttempt
  first_attempt = new_attempt now id work.asset_id work.worker_id work.job s.attempts

  abbrev pub begun : MediaStore
  begun = record marked { attempts = s.attempts ++ first_attempt ∷ [] }

  pub started :
      (id2 : ℕ)
      → find_asset work.asset_id s ≡ some asset
      → is_delivered asset.status ≡ false
      → find_attempt id s ≡ none
      → start_attempt now id id2 work s ≡ (ok (some first_attempt), begun)
  unfolding start_attempt start_image
  started id2 f d fresh =
      let (_, q) =
        change_task-kept (processing_task now) asset.task_run_id (save_asset marked_asset s) in
      rw (start_attempt, start_image, f, d)
        (rw (started_fresh now id work.asset_id work.worker_id work.job marked (rw q fresh), q)
          refl)

  pub begun_attempt : find_attempt id s ≡ none → find_attempt id begun ≡ some first_attempt
  unfolding new_attempt
  begun_attempt fresh =
      ground (arith, find-append_one attempt_key id first_attempt s.attempts, fresh)

-- A run that returns normally has completed its attempt.
returned :
    (error_code : Error → String) (c : Circumstances) (work : Work) (output : Result Output)
    (r : Report) (a : MediaAttempt) (t : MediaStore)
    → (run_attempt error_code c work output r (ok (some a), t)).0 ≡ ok tt
    → (o : Output) × (s' : MediaStore) × (finalize c.finished_at a.attempt_id work o (c.meanwhile t)
        ≡ ok (tt, s'))
unfolding run_attempt except_attempt
returned error_code c work (err e) r a t h = ground (arith, h)
returned error_code c work (ok o) r a t h =
    elim (Result-cases (finalize c.finished_at a.attempt_id work o (c.meanwhile t))) [
      | inl ((_, s'), f) ↦ (o, s', f)
      | inr (e, f) ↦ ground (arith, h, f)
    ]

own_number :
    (work : Work) (x : MediaAttempt)
    → is_own_attempt work x ≡ true
    → x.attempt_number ≡ work.job.attempt_count
own_number work x h = ground (arith, h)

-- The run of a job whose attempts are more than those at its asset: an earlier one was lost before its
-- attempt at the asset was begun. Then no image is ever accepted, whatever the provider answers and others
-- do meanwhile, as long as nobody gives the attempt another number: the run always raises.
pub misnumbered_attempt-fails :
    (error_code : Error → String) (max_bytes media_max_cost : ℕ) (c : Circumstances)
    (provider : Result GeneratedImage) (storage : Result ℕ) (work : Work) (s : MediaStore)
    (asset : MediaAsset)
    → find_asset work.asset_id s ≡ some asset
    → is_delivered asset.status ≡ false
    → find_attempt c.attempt_id s ≡ none
    → next_attempt_number work.asset_id s.attempts ≢ work.job.attempt_count
    → ((t : MediaStore) (e e' : MediaAttempt)
        → find_attempt c.attempt_id t ≡ some e
        → find_attempt c.attempt_id (c.meanwhile t) ≡ some e'
        → e'.attempt_number ≡ e.attempt_number)
    → (generate_image error_code max_bytes media_max_cost c provider storage work s).0 ≢ ok tt
unfolding generate_image new_attempt
misnumbered_attempt-fails error_code max_bytes media_max_cost c provider storage work s asset f d
      fresh n keeps_number h =
    let now = c.started_at in
    let begins = started now c.attempt_id work s asset c.attempt_id2 f d fresh in
    let new = first_attempt now c.attempt_id work s asset in
    let tables = begun now c.attempt_id work s asset in
    let (o, s', done) =
      returned error_code c work (produced max_bytes media_max_cost provider storage c.checkpoint) _
        new tables (rw (generate_image, begins) at h) in
    let (_, x, checked, _) =
      finalize-Checked c.finished_at c.attempt_id work o (c.meanwhile tables) s' done in
    let (_, _, _, g, own, _) = checked in
    let same = keeps_number tables new x (begun_attempt now c.attempt_id work s asset fresh) g in
    n (sym same ∙ own_number work x own)
