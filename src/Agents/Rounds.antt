-- ===== src/Agents/Rounds.antt =====
-- What one round of the loop counts, in its state and in the row of its run.
use ai_game.Base.{
  ℕ, ◌+◌, ◌≤◌, ◌≡◌, refl, Bool, Option, none, some, List, [], ◌∷◌, arith, length, key-find,
  find-put, Bool-cases, Option-cases, inl, inr,
}
use ai_game.Errors.{
  Error, Result, ok, err, ◌>>◌, Result-cases, agent_tool_call_limit, agent_action_proposal_limit,
}
use ai_game.Constants.{AgentRunStatus}
use ai_game.Workflow.Tables.{Document}
use ai_game.Actions.Service.{AgentActionProposal}
use ai_game.Agents.Tables.{AgentRun, Audit, run_key, is_running}
use ai_game.Agents.Service.{
  change_run, counted_run, iterated_run, called_run, record_iteration, record_run_llm_call,
}
use ai_game.Agents.Tools.{AgentToolRequest}
use ai_game.Agents.Recording.{AtRun, CountsCall, not_counted, is_counted, execute_tool-CountsCall}
use ai_game.Agents.Loop.{
  before_action_proposals, before_tool_calls, after_turn, AgentExecutionBudget, AgentState,
  AgentTurn, LoopEnvironment, within_budget, process_proposals, proposal_answer, tool_result,
  process_tool_calls, iteration_allowed, record_call, begin_iteration, Turned, finish_output,
  use_tools, take_turn, turn_after, iterate,
}

abbrev pub WithinBudget : AgentExecutionBudget → AgentState → Type 0
WithinBudget b s =
    (s.iteration_count ≤ b.max_iterations)
    × (s.llm_call_count ≤ b.max_llm_calls)
    × (s.tool_call_count ≤ b.max_tool_calls)
    × (s.action_proposal_count ≤ b.max_action_proposals)

-- The row is running, has the counters of the state, and at most `calls` tool calls.
abbrev pub Recorded : ℕ → ℕ → AgentState → Audit → Type 0
Recorded id calls s a =
    (run : AgentRun) × AtRun id run a
    × (run.status ≡ AgentRunStatus.running)
    × (run.iteration_count ≡ s.iteration_count)
    × (run.llm_call_count ≡ s.llm_call_count)
    × (run.tool_call_count ≤ calls)

pub changed-AtRun :
    (allowed : AgentRunStatus → Bool) (change : AgentRun → AgentRun)
    → ((r : AgentRun) → (change r).agent_run_id ≡ r.agent_run_id)
    → (id : ℕ) (run : AgentRun) (a a' : Audit) → AtRun id run a
    → change_run allowed change id a ≡ ok a'
    → AtRun id (change run) a'
changed-AtRun allowed change same id run a a' f h = ground (
  arith,
  f,
  h,
  same run,
  key-find run_key id a.runs run f,
  find-put run_key id (change run) a.runs,
)

then→both :
    {A : Type 0} (x : Result (Unit {0})) (y : Result A) (v : A)
    → (x >> y) ≡ ok v
    → (x ≡ ok tt) × (y ≡ ok v)
then→both (ok tt) y v h = (refl, h)
then→both (err e) y v h = ground arith

within_budget→le :
    (late : Bool) (wanted limit : ℕ) (e : Error)
    → within_budget late wanted limit e ≡ ok tt
    → wanted ≤ limit
unfolding within_budget
within_budget→le late wanted limit e h = ground (arith, h)

module _ (env : LoopEnvironment) where
  abbrev b : AgentExecutionBudget
  b = env.budget

  abbrev pub Going : AgentState → Audit → Type 0
  Going s a = WithinBudget b s × Recorded env.agent_run_id s.tool_call_count s a

  abbrev pub Ended : AgentState → Audit → Type 0
  Ended s a = WithinBudget b s × Recorded env.agent_run_id b.max_tool_calls s a

  pub Going-Ended : (s : AgentState) (a : Audit) → Going s a → Ended s a
  Going-Ended s a (w, (run, at, st, i, l, t)) = (w, (run, at, st, i, l, omega (arith, t, w)))

  -- The proposals count up by at most their number, and nothing else does.
  proposals_counted :
      (ps : List AgentActionProposal) (s : AgentState) (a : Audit)
      → s.action_proposal_count + length ps ≤ b.max_action_proposals
      → Ended s a
      → Ended (process_proposals env ps s).1 a
  unfolding process_proposals
  proposals_counted [] s a room g = g
  proposals_counted (p ∷ ps) s a room ((i, l, t, q), r) =
      elim (Result-cases (proposal_answer env p s)) [
        | inr (e, h) ↦ rw (process_proposals, h) ((i, l, t, q), r)
        | inl (done, h) ↦
            rw (process_proposals, h)
              (proposals_counted ps
                (record s { action_proposal_count = s.action_proposal_count + 1 }) a
                (omega (arith, room)) ((i, l, t, omega (arith, room)), r))
      ]

  -- The next tool call is counted in the row at most once.
  call-Recorded :
      (n : ℕ) (s : AgentState) (a a' : Audit)
      → Recorded env.agent_run_id n s a
      → ((run : AgentRun) → AtRun env.agent_run_id run a → CountsCall env.agent_run_id run a')
      → Recorded env.agent_run_id (n + 1) s a'
  call-Recorded n s a a' (run, at, st, i, l, t) k = elim (k run at) [
    | not_counted at' ↦ (run, at', st, i, l, omega (arith, t))
    | is_counted at' ↦ (counted_run run, at', st, i, l, omega (arith, t))
  ]

  abbrev Called : Result (Unit {0}) → AgentState → Audit → Type 0
  Called (ok done) s a = Going s a
  Called (err e) s a = Ended s a

  calls_counted :
      (requests : List AgentToolRequest) (s : AgentState) (a : Audit)
      → s.tool_call_count + length requests ≤ b.max_tool_calls
      → Going s a
      → Called
          (process_tool_calls env requests s a).0
          (process_tool_calls env requests s a).1.0
          (process_tool_calls env requests s a).1.1
  unfolding process_tool_calls
  calls_counted [] s a room g = g
  calls_counted (q ∷ rest) s a room ((i, l, t, p), r) =
      let counted = call-Recorded s.tool_call_count s a (tool_result env q s a).1 r (λ run at.
        execute_tool-CountsCall env.tools env.permissions _ _ env.agent_run_id env.agent_name q
          env.context _ run a at) in
      elim (Result-cases (tool_result env q s a).0) [
        | inr (e, h) ↦
            let (run, at, st, i', l', t') = counted in
            rw (process_tool_calls, h)
              ((i, l, t, p), (run, at, st, i', l', omega (arith, t', room)))
        | inl (done, h) ↦
            rw (process_tool_calls, h)
              (calls_counted rest (record s { tool_call_count = s.tool_call_count + 1 })
                (tool_result env q s a).1 (omega (arith, room))
                ((i, l, omega (arith, room), p), counted))
      ]

  abbrev pub Turns : Turned → Type 0
  Turns (some r, (s, a)) = Ended s a
  Turns (none, (s, a)) = Going s a

  output_counted :
      (v : Option Document) (ps : List AgentActionProposal) (s : AgentState) (a : Audit)
      → Ended s a
      → Ended (finish_output env v ps s).1 a
  unfolding finish_output
  output_counted none ps s a g = g
  output_counted (some output) ps s a g =
      elim (Result-cases (
        within_budget (env.is_late s.iteration_count before_action_proposals)
          (s.action_proposal_count + length ps) b.max_action_proposals
          agent_action_proposal_limit)) [
            | inr (e, h) ↦ rw (finish_output, h) g
            | inl (done, h) ↦
                rw (finish_output, h) (proposals_counted ps s a (within_budget→le _ _ _ _ h) g)
          ]

  tools_counted :
      (requests : List AgentToolRequest) (s : AgentState) (a : Audit)
      → Going s a
      → Turns (use_tools env requests s a)
  unfolding use_tools
  tools_counted requests s a g =
      elim (Result-cases (
        within_budget (env.is_late s.iteration_count before_tool_calls)
          (s.tool_call_count + length requests) b.max_tool_calls agent_tool_call_limit)) [
            | inr (e, h) ↦ rw (use_tools, h) (Going-Ended s a g)
            | inl (done, h) ↦
                rw (use_tools, h)
                  (stopped (process_tool_calls env requests s a).0 _ _
                    (calls_counted requests s a (within_budget→le _ _ _ _ h) g))
          ]
    where
      stopped :
          (r : Result (Unit {0})) (s' : AgentState) (a' : Audit)
          → Called r s' a'
          → Turns (elim r [ err e ↦ some (err e) | ok done ↦ none ], (s', a'))
      stopped (ok done) s' a' c = c
      stopped (err e) s' a' c = c

  turn_counted :
      (r : Result AgentTurn) (s : AgentState) (a : Audit) → Going s a → Turns (take_turn env r s a)
  unfolding take_turn
  turn_counted (err e) s a g = Going-Ended s a g
  turn_counted (ok turn) s a g = elim (Bool-cases (env.is_late s.iteration_count after_turn)) [
    | inl late ↦ rw (take_turn, late) (Going-Ended s a g)
    | inr timely ↦ elim (Option-cases turn.final_output) [
      | inl none_yet ↦ rw (take_turn, timely, none_yet) (tools_counted turn.tool_calls s a g)
      | inr (v, given) ↦
          rw (take_turn, timely, given)
            (output_counted v turn.action_proposals s a (Going-Ended s a g))
    ]
  ]

  called-AtRun :
      (run : AgentRun) (a a' : Audit)
      → AtRun env.agent_run_id run a
      → record_run_llm_call env.agent_run_id a ≡ ok a'
      → AtRun env.agent_run_id (called_run run) a'
  unfolding record_run_llm_call
  called-AtRun run a a' at h =
      changed-AtRun is_running called_run (λ r. refl) env.agent_run_id run a a' at h

  iterated-AtRun :
      (run : AgentRun) (a a' : Audit)
      → AtRun env.agent_run_id run a
      → record_iteration env.agent_run_id a ≡ ok a'
      → AtRun env.agent_run_id (iterated_run run) a'
  unfolding record_iteration
  iterated-AtRun run a a' at h =
      changed-AtRun is_running iterated_run (λ r. refl) env.agent_run_id run a a' at h

  call_counted :
      (s : AgentState) (a : Audit)
      → s.llm_call_count + 1 ≤ b.max_llm_calls
      → Going s a
      → Turns (turn_after env (record_call env s a))
  unfolding record_call
  call_counted s a room g =
      let id = env.agent_run_id in
      elim (Result-cases
        (env.reserve_workflow_llm_call s.llm_call_count >> record_run_llm_call id a)) [
          | inr (e, h) ↦ rw (record_call, h) (Going-Ended s a g)
          | inl (a', h) ↦
              let ((i, l, t, p), (run, at, st, i', l', t')) = g in
              let s' = record s { llm_call_count = s.llm_call_count + 1 } in
              let counted : AtRun id (called_run run) a' =
                called-AtRun run a a' at
                  (then→both (env.reserve_workflow_llm_call s.llm_call_count)
                    (record_run_llm_call id a) a' h).1 in
              rw (record_call, h)
                (turn_counted (env.run_agent_turn s.iteration_count) s' a'
                  ((i, room, t, p), (called_run run, counted, st, i', omega (arith, l'), t')))
        ]

  pub begun : (s : AgentState) (a : Audit) → Going s a → Turns (iterate env s a)
  unfolding iterate begin_iteration
  begun s a g =
      let id = env.agent_run_id in
      elim (Result-cases (iteration_allowed env s >> record_iteration id a)) [
        | inr (e, h) ↦ rw (iterate, begin_iteration, h) (Going-Ended s a g)
        | inl (a', h) ↦
            let ((i, l, t, p), (run, at, st, i', l', t')) = g in
            let (allowed, noted) =
              then→both (iteration_allowed env s) (record_iteration id a) a' h in
            let (first, second) = then→both _ _ tt allowed in
            let s' = record s { iteration_count = s.iteration_count + 1 } in
            let counted = iterated-AtRun run a a' at noted in
            rw (iterate, begin_iteration, h)
              (call_counted s' a' (within_budget→le _ _ _ _ second) (
                (within_budget→le _ _ _ _ first, l, t, p),
                (iterated_run run, counted, st, omega (arith, i'), l', t'),
              ))
      ]
