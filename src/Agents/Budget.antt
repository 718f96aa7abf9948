-- ===== src/Agents/Budget.antt =====
-- The loop keeps within its budget, and the row of its run tells how much of it was used.
use ai_game.Base.{ℕ, zero, suc, ◌≡◌, none, some, arith, Option-cases, inl, inr}
use ai_game.Errors.{Result}
use ai_game.Constants.{AgentRunStatus}
use ai_game.Workflow.Tables.{Document}
use ai_game.Agents.Tables.{AgentRun, Audit}
use ai_game.Agents.Recording.{AtRun}
use ai_game.Agents.Loop.{
  AgentState, LoopEnvironment, Turned, iterate, agent_loop, initial_state, run_agent,
}
use ai_game.Agents.Rounds.{WithinBudget, Recorded, Going, Ended, Turns, Going-Ended, begun}

module _ (env : LoopEnvironment) where
  goes_on : (t : Turned) → t.0 ≡ none → Turns env t → Going env t.1.0 t.1.1
  goes_on (none, (s, a)) h g = g
  goes_on (some r, (s, a)) h g = ground (arith, h)

  stops : (t : Turned) (r : Result Document) → t.0 ≡ some r → Turns env t → Ended env t.1.0 t.1.1
  stops (none, (s, a)) r h g = ground (arith, h)
  stops (some x, (s, a)) r h g = g

  looped :
      (rounds : ℕ) (s : AgentState) (a : Audit)
      → Going env s a
      → Ended env (agent_loop env rounds s a).1.0 (agent_loop env rounds s a).1.1
  unfolding agent_loop
  looped zero s a g = Going-Ended env s a g
  looped (suc rounds) s a g =
      let next = iterate env s a in
      let turns = begun env s a g in
      elim (Option-cases next.0) [
        | inl on ↦ rw (agent_loop, on) (looped rounds next.1.0 next.1.1 (goes_on next on turns))
        | inr (r, off) ↦ rw (agent_loop, off) (stops next r off turns)
      ]

  -- Whatever the provider, the tools and the clock answer, the run of an agent keeps within its budget of
  -- iterations, LLM calls, tool calls and proposals. If it starts from a running row without counted calls,
  -- the row ends running with the iterations and LLM calls that were made, and at most the budget of tool calls.
  pub run_agent-WithinBudget :
      (run : AgentRun) (a : Audit)
      → AtRun env.agent_run_id run a
      → run.status ≡ AgentRunStatus.running
      → run.iteration_count ≡ 0
      → run.llm_call_count ≡ 0
      → run.tool_call_count ≡ 0
      → WithinBudget env.budget (run_agent env a).1.0
        × Recorded env.agent_run_id env.budget.max_tool_calls
            (run_agent env a).1.0
            (run_agent env a).1.1
  unfolding run_agent
  run_agent-WithinBudget run a at st i l t =
      looped env.budget.max_iterations initial_state a (
        (omega arith, omega arith, omega arith, omega arith),
        (run, at, st, i, l, omega (arith, t)),
      )
