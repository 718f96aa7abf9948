-- ===== src/Workflow/Progress.antt =====
-- What a round may do to the pair, whether it goes on, ends or raises: the interface between the rounds and
-- the loop. A rank of the pair falls whenever the loop goes on.
use ai_game.Base.{ℕ, ◌+◌, ◌-◌, ◌*◌, ◌≤◌, ◌<◌, ◌≡◌, Option, none, some, true, arith}
use ai_game.Errors.{Result, ok}
use ai_game.Constants.{
  CampaignStatus, received, validating, analyzing, generating, reviewing, revision_required,
}
use ai_game.Workflow.Tables.{Document, WorkflowRun, Campaign, Db}
use ai_game.Workflow.Run.{Environment, Progress, again, finished}
use ai_game.Workflow.Pairs.{IsPair}
use ai_game.Workflow.Automaton.{AutoStep}
use ai_game.Workflow.Rounds.{is_resting}

-- How far a workflow is from its end; `left` is the number of retries left.
abbrev pub stage : CampaignStatus → Option Document → ℕ → ℕ
stage received content left = 2 * left + 5
stage validating content left = 2 * left + 4
stage analyzing content left = 2 * left + 3
stage revision_required content left = 2 * left + 3
stage generating content left = 2 * left + 2
stage reviewing none left = 2 * left + 3
stage reviewing (some content) left = 2 * left + 1
stage _ content left = 0

abbrev pub rank : ℕ → WorkflowRun → Campaign → ℕ
rank max w c = stage w.status c.generated_content (max - w.retry_count)

pub rank_bound : (max : ℕ) (w : WorkflowRun) (c : Campaign) → rank max w c ≤ 2 * max + 5
rank_bound max w c = ground arith

-- The columns by which the loop goes on are as before.
pub record SameProgress (w w' : WorkflowRun) (c c' : Campaign) : Type 0 where
  pub status : w'.status ≡ w.status
  pub retry_count : w'.retry_count ≡ w.retry_count
  pub campaign_status : c'.status ≡ c.status
  pub brief_analysis : c'.brief_analysis ≡ c.brief_analysis
  pub generated_content : c'.generated_content ≡ c.generated_content

-- Whatever else is written between two states, the pair is there and is as far as before.
pub record KeepsProgress (i : ℕ) (db db' : Db) : Type 0 where
  pub at :
      (w : WorkflowRun) (c : Campaign)
      → IsPair i db w c
      → (w' : WorkflowRun) × (c' : Campaign) × IsPair i db' w' c' × SameProgress w w' c c'

-- What the loop relies on in the specialists: they leave to the checkpoints the columns that the loop
-- reads. (They do count LLM calls, and write tables of their own.)
pub record LeavesProgress (env : Environment) : Type 0 where
  pub brief_analysis : (i j : ℕ) (db : Db) → KeepsProgress j db (env.run_brief_analysis i j db).1
  pub content_generation :
      (i j : ℕ) (db : Db) → KeepsProgress j db (env.run_content_generation i j db).1
  pub content_review : (i j : ℕ) (db : Db) → KeepsProgress j db (env.run_content_review i j db).1

-- The pair after a round that began with `w` and `c`: it has made one move of the automaton, the campaign
-- has followed the workflow, and a round that is followed by another has lowered the rank.
pub record Advances (max i : ℕ) (w : WorkflowRun) (c : Campaign) (res : Result Progress) (db' : Db)
    : Type 0 where
  pub workflow : WorkflowRun
  pub campaign : Campaign
  pub pair : IsPair i db' workflow campaign
  pub step : AutoStep max w.status w.retry_count workflow.status workflow.retry_count
  pub in_step : c.status ≡ w.status → campaign.status ≡ workflow.status
  pub smaller : res ≡ ok again → rank max workflow campaign < rank max w c
  pub rests :
      (v : WorkflowRun)
      → res ≡ ok (finished v)
      → (workflow ≡ v) × (is_resting workflow.status ≡ true)
