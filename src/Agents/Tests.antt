-- ===== src/Agents/Tests.antt =====
-- An agent with one tool, whose model asks for the tool and then answers.
use ai_game.Base.{ℕ, zero, suc, ◌≡◌, refl, true, false, none, some, [], ◌∷◌, codes, ◌+◌}
use ai_game.Errors.{Result, ok, err, llm_provider}
use ai_game.Constants.{brief_analyst, AgentRunStatus}
use ai_game.Agents.Tables.{AgentRun, Audit, find_run}
use ai_game.Agents.Service.{
  new_run, create_run, finished_run, has_active_run, record_iteration, record_run_llm_call,
  create_tool_call, start_tool_call, finish_tool_call,
}
use ai_game.Agents.Tools.{
  AgentToolRequest, default_permissions, returns, execute_tool, admit_call, get_tool_for_agent,
  find_tool, validate_scope, try_call, run_tool, complete_call,
}
use ai_game.Agents.Loop.{
  AgentTurn, LoopEnvironment, run_agent, iterate, begin_iteration, within_budget, record_call,
  take_turn, use_tools, process_tool_calls, finish_output, process_proposals,
}
use ai_game.Agents.Rounds.{WithinBudget, Recorded}
use ai_game.Agents.Budget.{run_agent-WithinBudget}
use ai_game.Agents.Rivals.{OneActive, replay-OneActive}
use ai_game.Agents.Calls.{creating, starting, iterating, failing, replay, finished_run-stays}
use ai_game.Agents.Orchestrator.{orchestrate}
use ai_game.Agents.Endings.{Finished, orchestrate-Finished}

abbrev request : AgentToolRequest
request = record {
  tool_name = codes "get_previous_workflow_summary";
  campaign_id = some 7;
  workflow_id = some 1;
  is_valid = true;
}

-- The answer to the first call asks for the tool, that to the second is final.
abbrev turn : ℕ → Result AgentTurn
turn (suc zero) =
    ok (record { final_output = none; tool_calls = request ∷ []; action_proposals = [] })
turn (suc (suc zero)) =
    ok (record { final_output = some (some "{}"); tool_calls = []; action_proposals = [] })
turn _ = err llm_provider

abbrev environment : LoopEnvironment
environment = record {
  agent_run_id = 3;
  agent_name = brief_analyst;
  context = record { campaign_id = 7; workflow_id = 1 };
  budget = record {
    max_iterations = 6;
    max_llm_calls = 6;
    max_tool_calls = 4;
    max_action_proposals = 3;
  };
  tools = record { name = codes "get_previous_workflow_summary"; read_only = true } ∷ [];
  permissions = default_permissions;
  processes = true;
  is_late = λ i c. false;
  reserve_workflow_llm_call = λ i. ok tt;
  run_agent_turn = turn;
  process_action_proposal = λ i p. ok tt;
  now = λ i. 50 + i;
  tool_call_id = λ i. i;
  tool_outcome = λ i. returns;
}

abbrev created : AgentRun
created = new_run 3 1 7 brief_analyst

abbrev started : AgentRun
started = record created { status = AgentRunStatus.running }

abbrev audit : AgentRun → Audit
audit run = record { runs = run ∷ []; tool_calls = [] }

run_agent-WithinBudget_example :
    WithinBudget environment.budget (run_agent environment (audit started)).1.0
    × Recorded 3 4
        (run_agent environment (audit started)).1.0
        (run_agent environment (audit started)).1.1
run_agent-WithinBudget_example =
    run_agent-WithinBudget environment started (audit started) refl refl refl refl refl

answered : (run_agent environment (audit started)).0 ≡ ok "{}"
unfolding run_agent iterate begin_iteration within_budget record_iteration record_call
    record_run_llm_call take_turn use_tools process_tool_calls execute_tool create_tool_call
    admit_call get_tool_for_agent find_tool validate_scope try_call start_tool_call run_tool
    complete_call finish_tool_call finish_output process_proposals default_permissions
answered = refl

orchestrate-Finished_example :
    Finished 60 3 (orchestrate 60 environment (record { runs = []; tool_calls = [] }))
unfolding create_run has_active_run
orchestrate-Finished_example =
    orchestrate-Finished 60 environment (record { runs = []; tool_calls = [] }) (audit created) refl

abbrev finished : AgentRun
finished = finished_run AgentRunStatus.completed 60 none started

finished_run-stays_example :
    find_run 3 (replay (failing 70 llm_provider false 3 ∷ iterating 3 ∷ []) (audit finished)).runs
    ≡ some finished
finished_run-stays_example =
    finished_run-stays (failing 70 llm_provider false 3 ∷ iterating 3 ∷ []) (audit finished) 3
      finished refl refl

replay-OneActive_example :
    OneActive (replay (creating 4 1 7 brief_analyst ∷ starting 4 ∷ []) (audit started)).runs
replay-OneActive_example =
    replay-OneActive (creating 4 1 7 brief_analyst ∷ starting 4 ∷ []) (audit started) (tt, tt)
