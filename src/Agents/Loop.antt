-- ===== src/Agents/Loop.antt =====
-- app/agentic/runtime/agent_loop.py and execution_budget.py: an agent runs within its budget. Messages are
-- left out: what the provider, the tools and the processing of proposals answer is an argument, for each
-- call by its number, and so is at which tests the time is over.
use ai_game.Base.{
  ℕ, zero, suc, ◌+◌, Bool, not, Option, none, some, List, [], ◌∷◌, leb, length, if◌then◌else◌, Text,
}
use ai_game.Errors.{
  Error, Result, ok, err, ensure, ◌>>◌, agent_timeout, agent_iteration_limit, agent_llm_call_limit,
  agent_tool_call_limit, agent_action_proposal_limit, agent_output_validation,
}
use ai_game.Constants.{AgentName}
use ai_game.Workflow.Tables.{Document}
use ai_game.Agents.Tables.{Audit}
use ai_game.Agents.Service.{record_iteration, record_run_llm_call}
use ai_game.Agents.Tools.{
  ToolDefinition, AgentToolRequest, CampaignContext, ToolOutcome, execute_tool,
}
use ai_game.Actions.Service.{AgentActionProposal}

-- `AgentExecutionBudget`; the timeout is in the argument `is_late` below.
pub record AgentExecutionBudget : Type 0 where
  pub max_iterations : ℕ
  pub max_llm_calls : ℕ
  pub max_tool_calls : ℕ
  pub max_action_proposals : ℕ

-- `AgentState`: its counters.
pub record AgentState : Type 0 where
  pub iteration_count : ℕ
  pub llm_call_count : ℕ
  pub tool_call_count : ℕ
  pub action_proposal_count : ℕ

-- `AgentTurn`; a final output comes with what the agent's schema makes of it.
pub record AgentTurn : Type 0 where
  pub final_output : Option (Option Document)
  pub tool_calls : List AgentToolRequest
  pub action_proposals : List AgentActionProposal

-- The places where the tracker looks at the clock.
pub data Checkpoint : Type 0 where
  before_iteration before_llm_call after_turn before_action_proposals before_tool_calls : Checkpoint

-- What the loop is given and what it meets.
pub record LoopEnvironment : Type 0 where
  pub agent_run_id : ℕ
  pub agent_name : AgentName
  pub context : CampaignContext
  pub budget : AgentExecutionBudget
  pub tools : List ToolDefinition
  pub permissions : AgentName → List Text
  -- `process_action_proposal`, which may be missing
  pub processes : Bool
  pub is_late : ℕ → Checkpoint → Bool
  pub reserve_workflow_llm_call : ℕ → Result (Unit {0})
  pub run_agent_turn : ℕ → Result AgentTurn
  pub process_action_proposal : ℕ → AgentActionProposal → Result (Unit {0})
  pub now : ℕ → ℕ
  pub tool_call_id : ℕ → ℕ
  pub tool_outcome : ℕ → ToolOutcome

-- The tests of `BudgetTracker`: `limit` is the budget that `current` and `requested` use up.
unfoldable pub within_budget : Bool → (wanted limit : ℕ) → Error → Result (Unit {0})
within_budget late wanted limit error = do
  ensure (not late) agent_timeout
  ensure (leb wanted limit) error

abbrev pub Outcome : Type 0
Outcome = Result Document × (AgentState × Audit)

-- How a turn ends: the run stops with a result, or the loop goes on.
abbrev pub Turned : Type 0
Turned = Option (Result Document) × (AgentState × Audit)

abbrev pub initial_state : AgentState
initial_state = record {
  iteration_count = 0;
  llm_call_count = 0;
  tool_call_count = 0;
  action_proposal_count = 0;
}

module _ (env : LoopEnvironment) where
  abbrev pub proposal_answer : AgentActionProposal → AgentState → Result (Unit {0})
  proposal_answer proposal state =
      if env.processes
      then env.process_action_proposal state.action_proposal_count proposal
      else err agent_output_validation

  -- The loop over the proposals of the last turn.
  unfoldable pub process_proposals :
      List AgentActionProposal → AgentState → Result (Unit {0}) × AgentState
  process_proposals [] state = (ok tt, state)
  process_proposals (proposal ∷ rest) state = elim (proposal_answer proposal state) [
    | err e ↦ (err e, state)
    | ok done ↦
        process_proposals rest
          (record state { action_proposal_count = state.action_proposal_count + 1 })
  ]

  abbrev pub tool_result : AgentToolRequest → AgentState → Audit → Result (Unit {0}) × Audit
  tool_result request state =
      execute_tool env.tools env.permissions (env.now state.tool_call_count)
        (env.tool_call_id state.tool_call_count) env.agent_run_id env.agent_name request env.context
        (env.tool_outcome state.tool_call_count)

  -- The loop over the tool calls of a turn.
  unfoldable pub process_tool_calls :
      List AgentToolRequest → AgentState → Audit → Result (Unit {0}) × (AgentState × Audit)
  process_tool_calls [] state audit = (ok tt, (state, audit))
  process_tool_calls (request ∷ rest) state audit =
      let (result, audit') = tool_result request state audit in
      elim result [
        | err e ↦ (err e, (state, audit'))
        | ok done ↦
            process_tool_calls rest (record state { tool_call_count = state.tool_call_count + 1 })
              audit'
      ]

  -- The start of an iteration: the tests of the budget, the records of it, and the workflow's own budget of
  -- LLM calls.
  abbrev pub iteration_allowed : AgentState → Result (Unit {0})
  iteration_allowed state =
      within_budget (env.is_late state.iteration_count before_iteration) (state.iteration_count + 1)
        env.budget.max_iterations agent_iteration_limit
      >> within_budget (env.is_late state.iteration_count before_llm_call)
          (state.llm_call_count + 1) env.budget.max_llm_calls agent_llm_call_limit

  unfoldable pub record_call : AgentState → Audit → Result (Unit {0}) × (AgentState × Audit)
  record_call state audit =
      elim (env.reserve_workflow_llm_call state.llm_call_count
        >> record_run_llm_call env.agent_run_id audit) [
          | err e ↦ (err e, (state, audit))
          | ok audit' ↦
              (ok tt, (record state { llm_call_count = state.llm_call_count + 1 }, audit'))
        ]

  unfoldable pub begin_iteration : AgentState → Audit → Result (Unit {0}) × (AgentState × Audit)
  begin_iteration state audit =
      elim (iteration_allowed state >> record_iteration env.agent_run_id audit) [
        | err e ↦ (err e, (state, audit))
        | ok audit' ↦
            record_call (record state { iteration_count = state.iteration_count + 1 }) audit'
      ]

  -- A turn with a final output.
  unfoldable pub finish_output :
      Option Document → List AgentActionProposal → AgentState → Result Document × AgentState
  finish_output none proposals state = (err agent_output_validation, state)
  finish_output (some output) proposals state =
      elim (within_budget (env.is_late state.iteration_count before_action_proposals)
        (state.action_proposal_count + length proposals) env.budget.max_action_proposals
        agent_action_proposal_limit) [
          | err e ↦ (err e, state)
          | ok done ↦
              (let (result, state') = process_proposals proposals state in
                (result >> ok output, state'))
        ]

  -- A turn that asks for tools.
  unfoldable pub use_tools : List AgentToolRequest → AgentState → Audit → Turned
  use_tools requests state audit =
      elim (within_budget (env.is_late state.iteration_count before_tool_calls)
        (state.tool_call_count + length requests) env.budget.max_tool_calls agent_tool_call_limit) [
          | err e ↦ (some (err e), (state, audit))
          | ok done ↦
              (let (result, after) = process_tool_calls requests state audit in
                (elim result [ err e ↦ some (err e) | ok done' ↦ none ], after))
        ]

  unfoldable pub take_turn : Result AgentTurn → AgentState → Audit → Turned
  take_turn (err e) state audit = (some (err e), (state, audit))
  take_turn (ok turn) state audit =
      if env.is_late state.iteration_count after_turn
      then (some (err agent_timeout), (state, audit))
      else (elim turn.final_output [
        | some validated ↦
            (let (result, state') = finish_output validated turn.action_proposals state in
              (some result, (state', audit)))
        | none ↦ use_tools turn.tool_calls state audit
      ])

  abbrev pub turn_after : Result (Unit {0}) × (AgentState × Audit) → Turned
  turn_after (err e, after) = (some (err e), after)
  turn_after (ok done, (state, audit)) =
      take_turn (env.run_agent_turn state.iteration_count) state audit

  unfoldable pub iterate : AgentState → Audit → Turned
  iterate state audit = turn_after (begin_iteration state audit)

  -- `for _ in range(max_iterations)`, and the exception after it
  unfoldable pub agent_loop : (rounds : ℕ) → AgentState → Audit → Outcome
  agent_loop zero state audit = (err agent_iteration_limit, (state, audit))
  agent_loop (suc rounds) state audit =
      let (result, after) = iterate state audit in
      elim result [ some stopped ↦ (stopped, after) | none ↦ agent_loop rounds after.0 after.1 ]

  -- `_run`
  unfoldable pub run_agent : Audit → Outcome
  unfolding agent_loop
  run_agent audit = agent_loop env.budget.max_iterations initial_state audit
