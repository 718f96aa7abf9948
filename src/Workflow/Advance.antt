-- ===== src/Workflow/Advance.antt =====
-- How a round comes by its move: by leaving the pair as it was, by saving one, or by saving one with an
-- outbox event.
use ai_game.Base.{ℕ, ◌≡◌, sym, ◌∙◌, ◌<◌}
use mathlib.Core.Path.{subst}
use ai_game.Errors.{Error, Result, ok, err}
use ai_game.Workflow.Tables.{WorkflowRun, Campaign, Db, WorkflowEvent, save_pair, add_event}
use ai_game.Workflow.Run.{Environment, Progress, again, finished}
use ai_game.Workflow.Pairs.{IsPair, save_pair-IsPair, add_event-IsPair}
use ai_game.Workflow.Automaton.{AutoStep}
use ai_game.Workflow.Progress.{rank, KeepsProgress, Advances}

module _ (env : Environment) (i : ℕ) (w : WorkflowRun) (c : Campaign) where
  abbrev pub max : ℕ
  max = env.max_content_retries

  abbrev pub Moves : Result Progress → Db → Type 0
  Moves = Advances max i w c

  -- A round that changes nothing the loop reads, and does not go on.
  pub advances_kept :
      (db db' : Db) (e : Error) → IsPair i db w c → KeepsProgress i db db' → Moves (err e) db'
  advances_kept db db' e p k =
      let (w', c', p', same) = k.at w c p in
      record {
        workflow = w';
        campaign = c';
        pair = p';
        step = AutoStep.stay same.status same.retry_count;
        in_step = λ h. same.campaign_status ∙ h ∙ sym same.status;
        smaller = λ h. cc;
        rests = λ u h. cc;
      }

  -- A round that has saved a pair.
  pub advances_saved :
      (res : Result Progress) (db db' : Db) (v w' : WorkflowRun) (d c' : Campaign)
      → IsPair i db v d
      → w'.workflow_id ≡ v.workflow_id
      → w'.campaign_id ≡ v.campaign_id
      → c'.campaign_id ≡ d.campaign_id
      → AutoStep max w.status w.retry_count w'.status w'.retry_count
      → c'.status ≡ w'.status
      → (res ≡ ok again → rank max w' c' < rank max w c)
      → ((u : WorkflowRun) → res ≡ ok (finished u) → ⊥)
      → save_pair w' c' db ≡ db'
      → Moves res db'
  advances_saved res db db' v w' d c' p a b e step both less goes same = record {
    workflow = w';
    campaign = c';
    pair = subst (λ x. IsPair i x w' c') same (save_pair-IsPair i db v w' d c' p a b e);
    step = step;
    in_step = λ _. both;
    smaller = less;
    rests = λ u h. absurd (goes u h);
  }

  -- The same, with an outbox event.
  pub advances_staged :
      (res : Result Progress) (db db' : Db) (event : WorkflowEvent) (v w' : WorkflowRun)
      (d c' : Campaign)
      → IsPair i db v d
      → w'.workflow_id ≡ v.workflow_id
      → w'.campaign_id ≡ v.campaign_id
      → c'.campaign_id ≡ d.campaign_id
      → AutoStep max w.status w.retry_count w'.status w'.retry_count
      → c'.status ≡ w'.status
      → (res ≡ ok again → rank max w' c' < rank max w c)
      → ((u : WorkflowRun) → res ≡ ok (finished u) → ⊥)
      → add_event event (save_pair w' c' db) ≡ db'
      → Moves res db'
  advances_staged res db db' event v w' d c' p a b e step both less goes same = record {
    workflow = w';
    campaign = c';
    pair =
        subst (λ x. IsPair i x w' c') same
          (add_event-IsPair i event (save_pair w' c' db) w' c'
            (save_pair-IsPair i db v w' d c' p a b e));
    step = step;
    in_step = λ _. both;
    smaller = less;
    rests = λ u h. absurd (goes u h);
  }
