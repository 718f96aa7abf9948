-- ===== src/Agents/Endings.antt =====
-- Every run that the orchestrator creates is finished.
use ai_game.Base.{
  ℕ, ◌≡◌, refl, ap, sym, Bool, true, none, some, arith, find-append_one, if◌then◌else◌,
}
use ai_game.Errors.{Error, Result, ok, err}
use ai_game.Constants.{AgentName, AgentRunStatus, limit_exceeded}
use ai_game.Workflow.Tables.{Document}
use ai_game.Agents.Tables.{AgentRun, Audit, save_run, run_key, is_running, is_created, is_active}
use ai_game.Agents.Service.{
  new_run, create_run, change_run, start_run, complete_run, fail_run, started_run, finished_run,
}
use ai_game.Agents.Recording.{AtRun}
use ai_game.Agents.Rounds.{changed-AtRun}
use ai_game.Agents.Budget.{run_agent-WithinBudget}
use ai_game.Agents.Loop.{LoopEnvironment, run_agent}
use ai_game.Agents.Orchestrator.{
  is_limit_error, wrapped_failure, record_agent_failure, complete_agent, run_created, orchestrate,
}

-- The status that a result leaves.
abbrev pub EndsAs : Result Document → AgentRunStatus → Type 0
EndsAs (ok output) status = status ≡ AgentRunStatus.completed
EndsAs (err e) status =
    status ≡ (if is_limit_error e then limit_exceeded else AgentRunStatus.failed)

-- The row of the run is finished as the result says, with a time.
abbrev pub Finished : ℕ → ℕ → Result Document × Audit → Type 0
Finished now id (result, a) =
    (run : AgentRun) × AtRun id run a × EndsAs result run.status × (run.completed_at ≡ some now)

-- A run that is there in an allowed state is changed.
changes-AtRun :
    (allowed : AgentRunStatus → Bool) (change : AgentRun → AgentRun) (id : ℕ) (run : AgentRun)
    (a : Audit)
    → AtRun id run a
    → allowed run.status ≡ true
    → change_run allowed change id a ≡ ok (save_run (change run) a)
changes-AtRun allowed change id run a f h = rw (f, h) refl

limit_same : (e : Error) → is_limit_error (wrapped_failure e) ≡ is_limit_error e
limit_same e = ground arith

created-AtRun :
    (id workflow_id campaign_id : ℕ) (agent : AgentName) (a a' : Audit)
    → create_run id workflow_id campaign_id agent a ≡ ok a'
    → AtRun id (new_run id workflow_id campaign_id agent) a'
unfolding create_run
created-AtRun id workflow_id campaign_id agent a a' h =
    ground (arith, h, find-append_one run_key id (new_run id workflow_id campaign_id agent) a.runs)

started_same :
    (id : ℕ) (run : AgentRun) (a : Audit)
    → AtRun id run a
    → run.status ≡ AgentRunStatus.created
    → change_run is_created started_run id a ≡ ok (save_run (started_run run) a)
started_same id run a f c = changes-AtRun is_created started_run id run a f (rw c refl)

start_run-AtRun :
    (id : ℕ) (run : AgentRun) (a : Audit)
    → AtRun id run a
    → run.status ≡ AgentRunStatus.created
    → start_run id a ≡ ok (save_run (started_run run) a)
unfolding start_run
start_run-AtRun id run a f c = started_same id run a f c

module _ (now id : ℕ) (run : AgentRun) (a : Audit) (f : AtRun id run a)
    (running : run.status ≡ AgentRunStatus.running) where
  failed-Finished : (e : Error) → Finished now id (record_agent_failure now id e a)
  unfolding record_agent_failure fail_run
  failed-Finished e =
      let raised = wrapped_failure e in
      let change =
        finished_run (if is_limit_error e then limit_exceeded else AgentRunStatus.failed) now
          (some raised) in
      let done = changes-AtRun is_active change id run a f (rw running refl) in
      rw (record_agent_failure, fail_run, done)
        (
          change run,
          changed-AtRun is_active change (λ r. refl) id run a _ f done,
          ap (λ (limit : Bool). if limit then limit_exceeded else AgentRunStatus.failed)
              (sym (limit_same e)),
          refl,
        )

  completed-Finished : (r : Result Document) → Finished now id (complete_agent now id r a)
  unfolding complete_agent complete_run
  completed-Finished (err e) = failed-Finished e
  completed-Finished (ok output) =
      let change = finished_run AgentRunStatus.completed now none in
      let done = changes-AtRun is_running change id run a f (rw running refl) in
      rw (complete_agent, complete_run, done)
        (change run, changed-AtRun is_running change (λ r. refl) id run a _ f done, refl, refl)

-- The orchestrator, once it has created its run, always finishes it: as COMPLETED if it returns an output,
-- as LIMIT_EXCEEDED if it raises that a limit was met, and as FAILED if it raises anything else.
pub orchestrate-Finished :
    (now : ℕ) (env : LoopEnvironment) (a a' : Audit)
    → create_run env.agent_run_id env.context.workflow_id env.context.campaign_id env.agent_name a
      ≡ ok a'
    → Finished now env.agent_run_id (orchestrate now env a)
unfolding orchestrate run_created
orchestrate-Finished now env a a' h =
    let id = env.agent_run_id in
    let new = new_run id env.context.workflow_id env.context.campaign_id env.agent_name in
    let there : AtRun id new a' = created-AtRun id _ _ _ a a' h in
    let started = start_run-AtRun id new a' there refl in
    let after = save_run (started_run new) a' in
    let begun : AtRun id (started_run new) after =
      changed-AtRun is_created started_run (λ r. refl) id new a' after there
        (started_same id new a' there refl) in
    let (_, (run, at, running, _, _, _)) =
      run_agent-WithinBudget env (started_run new) after begun refl refl refl refl in
    rw (orchestrate, h, run_created, started)
      (completed-Finished now id run (run_agent env after).1.1 at running (run_agent env after).0)
