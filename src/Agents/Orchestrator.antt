-- ===== src/Agents/Orchestrator.antt =====
-- app/agentic/runtime/orchestrator.py, `_run`: a run is created, driven by the loop, and finished. The
-- resolution of the prompt and the memory log, whose failure is only logged, are left out.
use ai_game.Base.{ℕ, Bool, true, false, if◌then◌else◌}
use ai_game.Errors.{
  Error, Result, ok, err, agent_timeout, agent_iteration_limit, agent_llm_call_limit,
  agent_tool_call_limit, agent_action_proposal_limit, agent_execution,
}
use ai_game.Workflow.Tables.{Document}
use ai_game.Actions.Finish.{is_foreign}
use ai_game.Agents.Tables.{Audit}
use ai_game.Agents.Service.{create_run, start_run, complete_run, fail_run}
use ai_game.Agents.Loop.{LoopEnvironment, run_agent}

-- `LIMIT_ERRORS`
abbrev pub is_limit_error : Error → Bool
is_limit_error agent_iteration_limit = true
is_limit_error agent_llm_call_limit = true
is_limit_error agent_tool_call_limit = true
is_limit_error agent_timeout = true
is_limit_error agent_action_proposal_limit = true
is_limit_error _ = false

-- An exception that is no `ApplicationError` is wrapped.
abbrev pub wrapped_failure : Error → Error
wrapped_failure e = if is_foreign e then agent_execution else e

-- After a transaction of the service: its tables, or its exception.
abbrev pub raise_after : Error → Audit → Result Audit → Result Document × Audit
raise_after raised a (ok a') = (err raised, a')
raise_after raised a (err e) = (err e, a)

-- The handlers of exceptions: `_record_agent_failure`, and the exception again. The one for limits and the
-- one for the rest differ in the flag.
unfoldable pub record_agent_failure : (now id : ℕ) → Error → Audit → Result Document × Audit
record_agent_failure now id e a =
    let raised = wrapped_failure e in
    raise_after raised a (fail_run now raised (is_limit_error e) id a)

-- The end of the `try` block.
unfoldable pub complete_agent : (now id : ℕ) → Result Document → Audit → Result Document × Audit
complete_agent now id (err e) a = record_agent_failure now id e a
complete_agent now id (ok output) a = elim (complete_run now id a) [
  | ok a' ↦ (ok output, a')
  | err e ↦ record_agent_failure now id e a
]

-- From `start_run` on.
unfoldable pub run_created : (now : ℕ) → LoopEnvironment → Audit → Result Document × Audit
run_created now env a = elim (start_run env.agent_run_id a) [
  | err e ↦ (err e, a)
  | ok a' ↦
      (let (result, after) = run_agent env a' in complete_agent now env.agent_run_id result after.1)
]

-- `_run`; the id of the new run is that of the environment.
unfoldable pub orchestrate : (now : ℕ) → LoopEnvironment → Audit → Result Document × Audit
orchestrate now env a =
    elim (create_run env.agent_run_id env.context.workflow_id env.context.campaign_id env.agent_name
      a) [ err e ↦ (err e, a) | ok a' ↦ run_created now env a' ]
