-- ===== src/Workflow/Effects.antt =====
-- What each checkpoint does to a pair that is in the status it expects.
use ai_game.Base.{ℕ, ◌≡◌, refl, some, arith}
use ai_game.Errors.{ok, ◌>>=◌, ◌>>◌}
use ai_game.Constants.{
  CampaignStatus, analyzing, generating, reviewing, WorkflowStep, generate_content, review_content,
}
use ai_game.Workflow.State.{ensure_valid_transition}
use ai_game.Workflow.Tables.{Document, QualityReview, WorkflowRun, Campaign, Db, save_pair}
use ai_game.Workflow.Checkpoints.{
  ensure_expected_status, transition_checkpoint, save_analysis_checkpoint, save_content_checkpoint,
}
use ai_game.Workflow.Review.{review_branch, apply_review, staged_completion, review_transaction}
use ai_game.Workflow.Run.{Environment, round, resume}
use ai_game.Workflow.Pairs.{IsPair, load_locked_pair-eq}

abbrev pub moved : CampaignStatus → WorkflowStep → WorkflowRun → WorkflowRun
moved next_status next_step w = record w { status = next_status; current_step = next_step }

abbrev pub moved_campaign : CampaignStatus → Campaign → Campaign
moved_campaign next_status c = record c { status = next_status }

module _ (i : ℕ) (db : Db) (w : WorkflowRun) (c : Campaign) (p : IsPair i db w c) where
  pub transition_checkpoint-eq :
      (expected next : CampaignStatus) (step : WorkflowStep)
      → transition_checkpoint i expected next step db ≡ (
          ensure_expected_status w.status expected
          >> (ensure_valid_transition expected next
              >> ok (moved next step w, save_pair (moved next step w) (moved_campaign next c) db)))
  unfolding transition_checkpoint
  transition_checkpoint-eq expected next step = rw (load_locked_pair-eq i db w c p)

  pub save_analysis_checkpoint-eq :
      (analysis : Document)
      → save_analysis_checkpoint i analysis db ≡ (
          ensure_expected_status w.status analyzing
          >> (ensure_valid_transition w.status generating
              >> ok (
                tt,
                save_pair
                    (moved generating generate_content w)
                    (moved_campaign generating (record c { brief_analysis = some analysis }))
                    db,
              )))
  unfolding save_analysis_checkpoint
  save_analysis_checkpoint-eq analysis = rw (load_locked_pair-eq i db w c p) (ground arith)

  pub save_content_checkpoint-eq :
      (content : Document)
      → save_content_checkpoint i content db ≡ (
          ensure_expected_status w.status generating
          >> (ensure_valid_transition w.status reviewing
              >> ok (
                tt,
                save_pair
                    (moved reviewing review_content w)
                    (moved_campaign reviewing (record c { generated_content = some content }))
                    db,
              )))
  unfolding save_content_checkpoint
  save_content_checkpoint-eq content = rw (load_locked_pair-eq i db w c p) (ground arith)

  pub review_transaction-eq :
      (max_content_retries : ℕ) (review : QualityReview)
      → let scored = record w { quality_score = some review.quality_score } in
        let reviewed = record c {
          quality_review = some review;
          quality_score = some review.quality_score;
        } in
        let branch = review_branch max_content_retries review.status w.retry_count in
        review_transaction max_content_retries i review db ≡ (
          ensure_expected_status w.status reviewing
          >> (apply_review branch scored reviewed >>= λ pair. ok (
            (branch, pair.0),
            staged_completion branch pair.0 review.quality_score (save_pair pair.0 pair.1 db),
          )))
  unfolding review_transaction
  review_transaction-eq max_content_retries review = rw (load_locked_pair-eq i db w c p) refl

  pub round-eq :
      (env : Environment)
      → round env i db
        ≡ resume env
            (record {
              workflow = w;
              brief_analysis = c.brief_analysis;
              generated_content = c.generated_content;
            })
            i
            db
            w.status
  unfolding round
  round-eq env = ground arith
