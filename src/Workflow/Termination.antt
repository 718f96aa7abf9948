-- ===== src/Workflow/Termination.antt =====
-- The loop of `run_to_pending_approval` ends: the rank of the locked pair falls in every round that is
-- followed by another, so fuel above the rank is enough.
use ai_game.Base.{ℕ, zero, suc, ◌<◌, ◌≡◌, refl, true, some, arith}
use ai_game.Errors.{Result, ok, err}
use ai_game.Constants.{CampaignStatus}
use ai_game.Workflow.Tables.{WorkflowRun, Campaign, Db}
use ai_game.Workflow.Run.{Environment, Progress, finished, again, round, run_loop}
use ai_game.Workflow.Pairs.{IsPair}
use ai_game.Workflow.Rounds.{is_resting}
use ai_game.Workflow.Automaton.{AutoRun, onward}
use ai_game.Workflow.Progress.{rank, LeavesProgress}
use ai_game.Workflow.Descent.{round-Advances}

-- A workflow that a run hands back is the stored one, in a status where a run rests.
abbrev pub Rested : Result WorkflowRun → WorkflowRun → Type 0
Rested (ok v) w = (w ≡ v) × (is_resting w.status ≡ true)
Rested (err e) w = Unit

-- How a run that began at status `s` with `r` retries leaves the pair: the automaton has led there, the
-- campaign has the workflow's status, and a workflow that is handed back is the stored one, at rest.
pub record RunEnds (max i : ℕ) (s : CampaignStatus) (r : ℕ) (res : Result WorkflowRun) (db' : Db)
    : Type 0 where
  pub workflow : WorkflowRun
  pub campaign : Campaign
  pub pair : IsPair i db' workflow campaign
  pub run : AutoRun max s r workflow.status workflow.retry_count
  pub in_step : campaign.status ≡ workflow.status
  pub rests : Rested res workflow

module _ (env : Environment) (leaves : LeavesProgress env) (i : ℕ) (s : CampaignStatus)
    (r : ℕ) where
  abbrev pub max : ℕ
  max = env.max_content_retries

  abbrev pub Returns : ℕ → Db → Type 0
  Returns fuel db =
      (res : Result WorkflowRun) × (db' : Db) × (run_loop fuel env i db ≡ some (res, db'))
      × RunEnds max i s r res db'

  -- Where the pair stands in the middle of a run.
  pub record Midway (db : Db) (n : ℕ) : Type 0 where
    pub workflow : WorkflowRun
    pub campaign : Campaign
    pub pair : IsPair i db workflow campaign
    pub run : AutoRun max s r workflow.status workflow.retry_count
    pub in_step : campaign.status ≡ workflow.status
    pub less : rank max workflow campaign < n

  next_round :
      (fuel : ℕ)
      → ((db1 : Db) → Midway db1 fuel → Returns fuel db1)
      → (db : Db) → Midway db (suc fuel)
      → (res : Result Progress) (db1 : Db) → round env i db ≡ (res, db1)
      → Returns (suc fuel) db
  unfolding run_loop
  next_round fuel rest db m (ok again) db1 q =
      let a = round-Advances env leaves i m.workflow m.campaign db db1 (ok again) m.pair q in
      let (res, db', e, ends) = rest db1 (record {
        workflow = a.workflow;
        campaign = a.campaign;
        pair = a.pair;
        run = onward m.run a.step;
        in_step = a.in_step m.in_step;
        less = omega (arith, a.smaller refl, m.less);
      }) in
      (res, db', rw q e, ends)
  next_round fuel rest db m (ok (finished v)) db1 q =
      let a = round-Advances env leaves i m.workflow m.campaign db db1 (ok (finished v)) m.pair q in
      (
        ok v,
        db1,
        rw q,
        record {
          workflow = a.workflow;
          campaign = a.campaign;
          pair = a.pair;
          run = onward m.run a.step;
          in_step = a.in_step m.in_step;
          rests = a.rests v refl;
        },
      )
  next_round fuel rest db m (err e) db1 q =
      let a = round-Advances env leaves i m.workflow m.campaign db db1 (err e) m.pair q in
      (
        err e,
        db1,
        rw q,
        record {
          workflow = a.workflow;
          campaign = a.campaign;
          pair = a.pair;
          run = onward m.run a.step;
          in_step = a.in_step m.in_step;
          rests = tt;
        },
      )

  pub run_loop-Returns : (fuel : ℕ) (db : Db) → Midway db fuel → Returns fuel db
  run_loop-Returns zero db m = absurd (let h = m.less in omega arith)
  run_loop-Returns (suc fuel) db m =
      next_round fuel (run_loop-Returns fuel) db m (round env i db).0 (round env i db).1 refl
