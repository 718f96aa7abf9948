-- ===== src/Workflow/Descent.antt =====
-- Every round makes one move of the automaton (Workflow/Automaton), and lowers the rank if it goes on.
use ai_game.Base.{ℕ, ◌≡◌, refl, sym, true, ◌∙◌, Option, none, some, arith, ap, ◌<◌}
use mathlib.Core.Path.{subst, subst₂}
use ai_game.Errors.{Result, ok}
use ai_game.Constants.{
  CampaignStatus, analyzing, generating, reviewing, received, validating, revision_required,
  generate_content, validate_input, analyze_brief, WorkflowStep,
}
use ai_game.Workflow.Tables.{Document, WorkflowRun, Campaign, Db, save_pair}
use ai_game.Workflow.Run.{Environment, Progress, again, finished, round}
use ai_game.Workflow.Pairs.{IsPair}
use ai_game.Workflow.Effects.{moved, moved_campaign}
use ai_game.Workflow.Rounds.{
  round_received, round_validating, round_revision_required, round_unanalyzed, round_ungenerated,
  round_analyzing, round_generating, round_reviewing, round_stopped, is_resting,
}
use ai_game.Workflow.Automaton.{AutoEdge, AutoStep, start, validate, revise, rewind}
use ai_game.Workflow.Outputs.{after_analysis, after_content, after_review_output}
use ai_game.Workflow.Advance.{advances_saved}
use ai_game.Workflow.Progress.{rank, LeavesProgress, Advances}

module _ (env : Environment) (leaves : LeavesProgress env) (i : ℕ) (w : WorkflowRun) (c : Campaign)
    (db db' : Db) (res : Result Progress) (p : IsPair i db w c) where
  abbrev max : ℕ
  max = env.max_content_retries

  -- The rounds that only move the status.
  moved_descends :
      (to : CampaignStatus) (step : WorkflowStep)
      → AutoEdge w.status to
      → rank max (moved to step w) (moved_campaign to c) < rank max w c
      → round env i db ≡ (ok again, save_pair (moved to step w) (moved_campaign to c) db)
      → round env i db ≡ (res, db')
      → Advances max i w c res db'
  moved_descends to step edge less e q =
      advances_saved env i w c res db db' w (moved to step w) c (moved_campaign to c) p refl refl
        refl (AutoStep.move w.status to edge refl refl refl) refl (λ _. less) (λ u x. cc (e, q))
        (ap (λ (x : Result Progress × Db). x.1) (sym e ∙ q))

  -- The rounds that leave everything as it is.
  kept_descends :
      (r : Result Progress)
      → (r ≡ ok again → ⊥)
      → ((u : WorkflowRun) → r ≡ ok (finished u) → (w ≡ u) × (is_resting w.status ≡ true))
      → round env i db ≡ (r, db)
      → round env i db ≡ (res, db')
      → Advances max i w c res db'
  kept_descends r stops rests e q =
      subst₂ (Advances max i w c) (ap (λ (x : Result Progress × Db). x.0) (sym e ∙ q))
        (ap (λ (x : Result Progress × Db). x.1) (sym e ∙ q))
        (record {
          workflow = w;
          campaign = c;
          pair = p;
          step = AutoStep.stay refl refl;
          in_step = λ h. h;
          smaller = λ h. absurd (stops h);
          rests = rests;
        })

  generating_descends :
      w.status ≡ generating
      → (analysis : Option Document) → c.brief_analysis ≡ analysis
      → round env i db ≡ (res, db')
      → Advances max i w c res db'
  generating_descends h none a q =
      kept_descends _ (λ x. cc) (λ u x. cc) (round_unanalyzed env i db w c p h a) q
  generating_descends h (some analysis) a q =
      after_content env i w c res db db' p h _ _ (leaves.content_generation w.campaign_id i db)
        (sym (round_generating env i db w c p analysis h a) ∙ q)

  reviewing_descends :
      w.status ≡ reviewing
      → (content : Option Document) → c.generated_content ≡ content
      → round env i db ≡ (res, db')
      → Advances max i w c res db'
  reviewing_descends h none a q =
      moved_descends generating generate_content (subst (λ s. AutoEdge s generating) (sym h) rewind)
        (ground arith) (round_ungenerated env i db w c p h a) q
  reviewing_descends h (some content) a q =
      after_review_output env i w c res db db' p h content a _ _
        (leaves.content_review w.campaign_id i db)
        (sym (round_reviewing env i db w c p content h a) ∙ q)

  status_descends :
      (s : CampaignStatus) → w.status ≡ s → round env i db ≡ (res, db') → Advances max i w c res db'
  status_descends received h q =
      moved_descends validating validate_input (subst (λ s. AutoEdge s validating) (sym h) start)
        (ground arith) (round_received env i db w c p h) q
  status_descends validating h q =
      moved_descends analyzing analyze_brief (subst (λ s. AutoEdge s analyzing) (sym h) validate)
        (ground arith) (round_validating env i db w c p h) q
  status_descends revision_required h q =
      moved_descends generating generate_content (subst (λ s. AutoEdge s generating) (sym h) revise)
        (ground arith) (round_revision_required env i db w c p h) q
  status_descends analyzing h q =
      after_analysis env i w c res db db' p h _ _ (leaves.brief_analysis w.campaign_id i db)
        (sym (round_analyzing env i db w c p h) ∙ q)
  status_descends generating h q = generating_descends h c.brief_analysis refl q
  status_descends reviewing h q = reviewing_descends h c.generated_content refl q
  status_descends _ h q =
      kept_descends (ok (finished w)) (λ x. cc) (λ u x. (ground arith, rw h))
        (round_stopped env i db w c p (rw h)) q

  pub round-Advances : round env i db ≡ (res, db') → Advances max i w c res db'
  round-Advances q = status_descends w.status refl q
