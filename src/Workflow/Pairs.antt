-- ===== src/Workflow/Pairs.antt =====
-- What a locked pair is, and what stands in the tables after it is saved.
use ai_game.Base.{ℕ, ◌≡◌, some, arith, key-find, find-put}
use ai_game.Errors.{ok}
use ai_game.Workflow.Tables.{
  WorkflowRun, Campaign, Db, WorkflowEvent, find_campaign, find_workflow, save_pair, add_event,
}
use ai_game.Workflow.Checkpoints.{load_locked_pair}

abbrev workflow_key : WorkflowRun → ℕ
workflow_key w = w.workflow_id

abbrev campaign_key : Campaign → ℕ
campaign_key c = c.campaign_id

-- What `load_locked_pair` returns: the workflow of that id, and its campaign.
pub record IsPair (workflow_id : ℕ) (db : Db) (w : WorkflowRun) (c : Campaign) : Type 0 where
  pub workflow_at : find_workflow workflow_id db ≡ some w
  pub campaign_at : find_campaign w.campaign_id db ≡ some c
  pub workflow_id_of : w.workflow_id ≡ workflow_id
  pub campaign_id_of : c.campaign_id ≡ w.campaign_id

pub load_locked_pair-IsPair :
    (i : ℕ) (db : Db) (w : WorkflowRun) (c : Campaign)
    → load_locked_pair i db ≡ ok (w, c)
    → IsPair i db w c
unfolding load_locked_pair
load_locked_pair-IsPair i db w c h = ground (
  arith,
  key-find workflow_key i db.workflows w,
  key-find campaign_key w.campaign_id db.campaigns c,
)

pub load_locked_pair-eq :
    (i : ℕ) (db : Db) (w : WorkflowRun) (c : Campaign)
    → IsPair i db w c
    → load_locked_pair i db ≡ ok (w, c)
unfolding load_locked_pair
load_locked_pair-eq i db w c h = ground arith

-- Saving the pair puts the new rows in the place of the old ones.
pub save_pair-IsPair :
    (i : ℕ) (db : Db) (w w' : WorkflowRun) (c c' : Campaign)
    → IsPair i db w c
    → w'.workflow_id ≡ w.workflow_id
    → w'.campaign_id ≡ w.campaign_id
    → c'.campaign_id ≡ c.campaign_id
    → IsPair i (save_pair w' c' db) w' c'
save_pair-IsPair i db w w' c c' h p q r = ground (
  arith,
  find-put workflow_key i w' db.workflows,
  find-put campaign_key w'.campaign_id c' db.campaigns,
)

-- An outbox event touches neither table.
pub add_event-IsPair :
    (i : ℕ) (e : WorkflowEvent) (db : Db) (w : WorkflowRun) (c : Campaign)
    → IsPair i db w c
    → IsPair i (add_event e db) w c
unfolding add_event
add_event-IsPair i e db w c h = ground arith
