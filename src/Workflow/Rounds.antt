-- ===== src/Workflow/Rounds.antt =====
-- One round of the loop, for each status of a pair that is there.
use ai_game.Base.{ℕ, Bool, true, false, ◌≡◌, some, none, arith}
use ai_game.Errors.{ok, err, transact, invalid_state_transition}
use ai_game.Constants.{
  CampaignStatus, analyzing, generating, reviewing, generate_content, received, validating,
  revision_required, validate_input, analyze_brief,
}
use ai_game.Workflow.State.{ensure_valid_transition}
use ai_game.Workflow.Tables.{Document, WorkflowRun, Campaign, Db, save_pair}
use ai_game.Workflow.Checkpoints.{save_analysis_checkpoint, save_content_checkpoint}
use ai_game.Workflow.Run.{
  Environment, again, finished, and_save, save_review_decision_checkpoint, round, resume,
}
use ai_game.Workflow.Pairs.{IsPair}
use ai_game.Workflow.Effects.{moved, moved_campaign, transition_checkpoint-eq, round-eq}

-- The statuses in which an automated run ends.
abbrev pub is_resting : CampaignStatus → Bool
is_resting received = false
is_resting validating = false
is_resting analyzing = false
is_resting generating = false
is_resting reviewing = false
is_resting revision_required = false
is_resting _ = true

module _ (env : Environment) (i : ℕ) (db : Db) (w : WorkflowRun) (c : Campaign)
    (p : IsPair i db w c) where
  pub round_received :
      w.status ≡ received
      → round env i db
        ≡ (ok again, save_pair (moved validating validate_input w) (moved_campaign validating c) db)
  unfolding resume ensure_valid_transition
  round_received h = ground (
    arith,
    round-eq i db w c p env,
    transition_checkpoint-eq i db w c p received validating validate_input,
  )

  pub round_validating :
      w.status ≡ validating
      → round env i db
        ≡ (ok again, save_pair (moved analyzing analyze_brief w) (moved_campaign analyzing c) db)
  unfolding resume ensure_valid_transition
  round_validating h = ground (
    arith,
    round-eq i db w c p env,
    transition_checkpoint-eq i db w c p validating analyzing analyze_brief,
  )

  pub round_revision_required :
      w.status ≡ revision_required
      → round env i db ≡ (
        ok again,
        save_pair (moved generating generate_content w) (moved_campaign generating c) db,
      )
  unfolding resume ensure_valid_transition
  round_revision_required h = ground (
    arith,
    round-eq i db w c p env,
    transition_checkpoint-eq i db w c p revision_required generating generate_content,
  )

  -- The state machine has no arrow from GENERATING back to ANALYZING.
  pub round_unanalyzed :
      w.status ≡ generating
      → c.brief_analysis ≡ none
      → round env i db ≡ (err invalid_state_transition, db)
  unfolding resume ensure_valid_transition
  round_unanalyzed h k = ground (
    arith,
    round-eq i db w c p env,
    transition_checkpoint-eq i db w c p generating analyzing analyze_brief,
  )

  pub round_ungenerated :
      w.status ≡ reviewing
      → c.generated_content ≡ none
      → round env i db ≡ (
        ok again,
        save_pair (moved generating generate_content w) (moved_campaign generating c) db,
      )
  unfolding resume ensure_valid_transition
  round_ungenerated h k = ground (
    arith,
    round-eq i db w c p env,
    transition_checkpoint-eq i db w c p reviewing generating generate_content,
  )

  -- The three rounds that call a specialist.
  pub round_analyzing :
      w.status ≡ analyzing
      → round env i db
        ≡ and_save
            (env.run_brief_analysis w.campaign_id i db)
            (λ analysis. transact (save_analysis_checkpoint i analysis))
  unfolding resume
  round_analyzing h = ground (arith, round-eq i db w c p env)

  pub round_generating :
      (analysis : Document)
      → w.status ≡ generating
      → c.brief_analysis ≡ some analysis
      → round env i db
        ≡ and_save
            (env.run_content_generation w.campaign_id i db)
            (λ content. transact (save_content_checkpoint i content))
  unfolding resume
  round_generating analysis h k = ground (arith, round-eq i db w c p env)

  pub round_reviewing :
      (content : Document)
      → w.status ≡ reviewing
      → c.generated_content ≡ some content
      → round env i db
        ≡ and_save
            (env.run_content_review w.campaign_id i db)
            (save_review_decision_checkpoint env i)
  unfolding resume
  round_reviewing content h k = ground (arith, round-eq i db w c p env)

  -- The statuses in which the loop hands the workflow back.
  pub round_stopped : is_resting w.status ≡ true → round env i db ≡ (ok (finished w), db)
  unfolding resume
  round_stopped h = ground (arith, round-eq i db w c p env)
