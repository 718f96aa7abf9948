-- ===== src/Workflow/Outputs.antt =====
-- The rounds that call a specialist: what they do with its output.
use ai_game.Base.{ℕ, ◌+◌, ◌≡◌, refl, some, arith, ap, ◌<◌}
use mathlib.Core.Path.{subst₂}
use ai_game.Errors.{Error, Result, ok, err, transact}
use ai_game.Constants.{
  analyzing, generating, reviewing, manual_review_required, pending_approval, generate_content,
  review_content, human_review,
}
use ai_game.Workflow.State.{ensure_valid_transition}
use ai_game.Workflow.Tables.{Document, QualityReview, WorkflowRun, Campaign, Db, workflow_completed}
use ai_game.Workflow.Checkpoints.{save_analysis_checkpoint, save_content_checkpoint}
use ai_game.Workflow.Review.{
  ReviewBranch, to_approval, to_manual_review, regenerate, review_branch, apply_review,
  staged_completion,
}
use ai_game.Workflow.Run.{Environment, Progress, and_save, save_review_decision_checkpoint}
use ai_game.Workflow.Pairs.{IsPair}
use ai_game.Workflow.Effects.{
  moved, moved_campaign, save_analysis_checkpoint-eq, save_content_checkpoint-eq,
  review_transaction-eq,
}
use ai_game.Workflow.Automaton.{AutoStep, analyze, generate, accept, escalate}
use ai_game.Workflow.Advance.{advances_kept, advances_saved, advances_staged}
use ai_game.Workflow.Progress.{SameProgress, KeepsProgress, Advances}

module _ (env : Environment) (i : ℕ) (w : WorkflowRun) (c : Campaign) where
  abbrev max : ℕ
  max = env.max_content_retries

  abbrev Moves : Result Progress → Db → Type 0
  Moves = Advances max i w c

  -- The specialist has raised.
  after_error :
      (res : Result Progress) (db db' db1 : Db) (e : Error)
      → IsPair i db w c
      → KeepsProgress i db db1
      → ◌≡◌ {A = Result Progress × Db} (err e, db1) (res, db')
      → Moves res db'
  after_error res db db' db1 e p k q =
      subst₂ Moves (ap (λ (x : Result Progress × Db). x.0) q)
        (ap (λ (x : Result Progress × Db). x.1) q) (advances_kept env i w c db db1 e p k)

  pub after_analysis :
      (res : Result Progress) (db db' : Db)
      → IsPair i db w c
      → w.status ≡ analyzing
      → (r : Result Document) (db1 : Db) → KeepsProgress i db db1
      → and_save (r, db1) (λ a. transact (save_analysis_checkpoint i a)) ≡ (res, db')
      → Moves res db'
  unfolding ensure_valid_transition
  after_analysis res db db' p h (err e) db1 k q = after_error res db db' db1 e p k q
  after_analysis res db db' p h (ok a) db1 k q =
      let (w', c', p', same) = k.at w c p in
      let saved = record c' { brief_analysis = some a } in
      advances_saved env i w c res db1 db' w' (moved generating generate_content w') c'
        (moved_campaign generating saved) p' refl refl refl
        (AutoStep.move analyzing generating analyze h refl same.retry_count) refl
        (λ _. ground (arith, same.status, same.retry_count))
        (λ u x. ground (arith, save_analysis_checkpoint-eq i db1 w' c' p' a, same.status))
        (ground (arith, save_analysis_checkpoint-eq i db1 w' c' p' a, same.status))

  pub after_content :
      (res : Result Progress) (db db' : Db)
      → IsPair i db w c
      → w.status ≡ generating
      → (r : Result Document) (db1 : Db) → KeepsProgress i db db1
      → and_save (r, db1) (λ a. transact (save_content_checkpoint i a)) ≡ (res, db')
      → Moves res db'
  unfolding ensure_valid_transition
  after_content res db db' p h (err e) db1 k q = after_error res db db' db1 e p k q
  after_content res db db' p h (ok a) db1 k q =
      let (w', c', p', same) = k.at w c p in
      let saved = record c' { generated_content = some a } in
      advances_saved env i w c res db1 db' w' (moved reviewing review_content w') c'
        (moved_campaign reviewing saved) p' refl refl refl
        (AutoStep.move generating reviewing generate h refl same.retry_count) refl
        (λ _. ground (arith, same.status, same.retry_count))
        (λ u x. ground (arith, save_content_checkpoint-eq i db1 w' c' p' a, same.status))
        (ground (arith, save_content_checkpoint-eq i db1 w' c' p' a, same.status))

  -- The pair with the score of its review.
  abbrev scored : QualityReview → WorkflowRun → WorkflowRun
  scored review v = record v { quality_score = some review.quality_score }

  abbrev reviewed : QualityReview → Campaign → Campaign
  reviewed review d = record d {
    quality_review = some review;
    quality_score = some review.quality_score;
  }

  -- A retry is taken only while retries are left.
  regenerate_left :
      (review : QualityReview) (v : WorkflowRun)
      → review_branch max review.status v.retry_count ≡ regenerate
      → v.retry_count < max
  unfolding review_branch
  regenerate_left review v b = ground arith

  after_branch :
      (res : Result Progress) (db db' : Db) (v : WorkflowRun) (d : Campaign)
      (review : QualityReview)
      → IsPair i db v d
      → SameProgress w v c d
      → w.status ≡ reviewing
      → (b : ReviewBranch) → review_branch max review.status v.retry_count ≡ b
      → (content : Document) → c.generated_content ≡ some content
      → and_save (ok review, db) (save_review_decision_checkpoint env i) ≡ (res, db')
      → Moves res db'
  unfolding save_review_decision_checkpoint staged_completion apply_review ensure_valid_transition
  after_branch res db db' v d review p same h regenerate b content k q =
      let left = regenerate_left review v b in
      let counted = record (scored review v) { retry_count = v.retry_count + 1 } in
      let counted' = record (reviewed review d) { retry_count = d.retry_count + 1 } in
      advances_saved env i w c res db db' v (moved generating generate_content counted) d
        (moved_campaign generating counted') p refl refl refl
        (AutoStep.retry h refl (omega (arith, left, same.retry_count))
          (omega (arith, same.retry_count)))
        refl (λ _. ground (arith, same.status, same.retry_count, left))
        (λ u x. ground (arith, review_transaction-eq i db v d p max review, same.status))
        (ground (arith, review_transaction-eq i db v d p max review, same.status))
  after_branch res db db' v d review p same h to_approval b content k q =
      advances_staged env i w c res db db'
        (workflow_completed v.workflow_id v.campaign_id pending_approval review.quality_score) v
        (moved pending_approval human_review (scored review v)) d
        (moved_campaign pending_approval (reviewed review d)) p refl refl refl
        (AutoStep.move reviewing pending_approval accept h refl same.retry_count) refl
        (λ _. ground arith)
        (λ u x. ground (arith, review_transaction-eq i db v d p max review, same.status))
        (ground (arith, review_transaction-eq i db v d p max review, same.status))
  after_branch res db db' v d review p same h to_manual_review b content k q =
      advances_staged env i w c res db db'
        (workflow_completed v.workflow_id v.campaign_id manual_review_required review.quality_score)
        v (moved manual_review_required human_review (scored review v)) d
        (moved_campaign manual_review_required (reviewed review d)) p refl refl refl
        (AutoStep.move reviewing manual_review_required escalate h refl same.retry_count) refl
        (λ _. ground arith)
        (λ u x. ground (arith, review_transaction-eq i db v d p max review, same.status))
        (ground (arith, review_transaction-eq i db v d p max review, same.status))

  pub after_review_output :
      (res : Result Progress) (db db' : Db)
      → IsPair i db w c
      → w.status ≡ reviewing
      → (content : Document) → c.generated_content ≡ some content
      → (r : Result QualityReview) (db1 : Db) → KeepsProgress i db db1
      → and_save (r, db1) (save_review_decision_checkpoint env i) ≡ (res, db')
      → Moves res db'
  after_review_output res db db' p h content l (err e) db1 k q = after_error res db db' db1 e p k q
  after_review_output res db db' p h content l (ok review) db1 k q =
      let (v, d, p', same) = k.at w c p in
      after_branch res db1 db' v d review p' same h (review_branch max review.status v.retry_count)
        refl content l q
