-- ===== src/Agents/Recording.antt =====
-- What the loop's records do to the row of its run.
use ai_game.Base.{
  ℕ, ◌≡◌, refl, ap, ◌∙◌, inl, inr, Bool, Option, none, some, List, arith, find-put, key-find, Text,
}
use ai_game.Errors.{Error, Result, ok, err, Result-cases, tool_timeout}
use ai_game.Constants.{AgentName, ToolCallStatus}
use ai_game.Agents.Tables.{AgentRun, ToolCall, Audit, run_key, find_run}
use ai_game.Agents.Service.{
  change_call, create_tool_call, start_tool_call, finish_tool_call, counted_run,
}
use ai_game.Agents.Tools.{
  ToolDefinition, AgentToolRequest, CampaignContext, ToolOutcome, returns, raises, exceeds_time,
  is_cancelled, end_in_error, end_cancelled, complete_call, run_tool, try_call, execute_tool, ended,
}

change_call-runs :
    (allowed : ToolCallStatus → Bool) (change : ToolCall → ToolCall) (id : ℕ) (a a' : Audit)
    → change_call allowed change id a ≡ ok a'
    → a'.runs ≡ a.runs
change_call-runs allowed change id a a' h = ground (arith, h)

pub finish_tool_call-runs :
    (now : ℕ) (status : ToolCallStatus) (error : Option Error) (id : ℕ) (a a' : Audit)
    → finish_tool_call now status error id a ≡ ok a'
    → a'.runs ≡ a.runs
unfolding finish_tool_call
finish_tool_call-runs now status error id a a' h = change_call-runs _ _ id a a' h

ended-runs :
    (a : Audit) (raised : Error) (r : Result Audit)
    → ((a' : Audit) → r ≡ ok a' → a'.runs ≡ a.runs)
    → (ended a raised r).1.runs ≡ a.runs
ended-runs a raised (ok a') k = k a' refl
ended-runs a raised (err e) k = refl

-- Every step after the creation of a call leaves the runs.
module _ (now call_id : ℕ) where
  end_in_error-runs : (e : Error) (a : Audit) → (end_in_error now call_id e a).1.runs ≡ a.runs
  unfolding end_in_error
  end_in_error-runs e a = ended-runs a _ _ (finish_tool_call-runs now _ _ call_id a)

  end_cancelled-runs : (a : Audit) → (end_cancelled now call_id a).1.runs ≡ a.runs
  unfolding end_cancelled
  end_cancelled-runs a = ended-runs a _ _ (finish_tool_call-runs now _ _ call_id a)

  complete_call-runs : (a : Audit) → (complete_call now call_id a).1.runs ≡ a.runs
  unfolding complete_call
  complete_call-runs a =
      elim (Result-cases (finish_tool_call now ToolCallStatus.completed none call_id a)) [
        | inl (a', f) ↦
            rw (complete_call, f)
              (finish_tool_call-runs now ToolCallStatus.completed none call_id a a' f)
        | inr (e, f) ↦ rw (complete_call, f) (end_in_error-runs e a)
      ]

  run_tool-runs : (o : ToolOutcome) (a : Audit) → (run_tool now call_id o a).1.runs ≡ a.runs
  unfolding run_tool
  run_tool-runs returns a = complete_call-runs a
  run_tool-runs (raises e) a = end_in_error-runs e a
  run_tool-runs exceeds_time a = end_in_error-runs tool_timeout a
  run_tool-runs is_cancelled a = end_cancelled-runs a

  pub start_tool_call-runs : (a a' : Audit) → start_tool_call call_id a ≡ ok a' → a'.runs ≡ a.runs
  unfolding start_tool_call
  start_tool_call-runs a a' h = change_call-runs _ _ call_id a a' h

  try_call-runs :
      (r : Result (Unit {0})) (o : ToolOutcome) (a : Audit)
      → (try_call now call_id r o a).1.runs ≡ a.runs
  unfolding try_call
  try_call-runs (err e) o a = end_in_error-runs e a
  try_call-runs (ok done) o a = elim (Result-cases (start_tool_call call_id a)) [
    | inl (a', s) ↦ rw (try_call, s) (run_tool-runs o a' ∙ start_tool_call-runs a a' s)
    | inr (e, s) ↦ rw (try_call, s) (end_in_error-runs e a)
  ]

-- The row of the run before and after a tool call: at most one call more is counted.
abbrev pub AtRun : ℕ → AgentRun → Audit → Type 0
AtRun id run a = find_run id a.runs ≡ some run

pub data CountsCall (id : ℕ) (run : AgentRun) (a : Audit) : Type 0 where
  not_counted : AtRun id run a → CountsCall id run a
  is_counted : AtRun id (counted_run run) a → CountsCall id run a

created-AtRun :
    (call_id id : ℕ) (name : Text) (run : AgentRun) (a a' : Audit)
    → AtRun id run a
    → create_tool_call call_id id name a ≡ ok a'
    → AtRun id (counted_run run) a'
unfolding create_tool_call
created-AtRun call_id id name run a a' f h =
    ground
      (arith, f, h, key-find run_key id a.runs run f, find-put run_key id (counted_run run) a.runs)

pub execute_tool-CountsCall :
    (tools : List ToolDefinition) (permissions : AgentName → List Text) (now call_id id : ℕ)
    (agent : AgentName) (request : AgentToolRequest) (context : CampaignContext) (o : ToolOutcome)
    (run : AgentRun) (a : Audit)
    → AtRun id run a
    → CountsCall id run (execute_tool tools permissions now call_id id agent request context o a).1
unfolding execute_tool
execute_tool-CountsCall tools permissions now call_id id agent request context o run a f =
    elim (Result-cases (create_tool_call call_id id request.tool_name a)) [
      | inr (e, c) ↦ rw (execute_tool, c) (not_counted f)
      | inl (a', c) ↦
          rw (execute_tool, c)
            (is_counted (
              ap (find_run id) (try_call-runs now call_id _ o a')
              ∙ created-AtRun call_id id request.tool_name run a a' f c))
    ]
