-- ===== src/Agents/Calls.antt =====
-- Histories of calls on the record of runs, and what a call does to them.
use ai_game.Base.{
  ℕ, ◌≡◌, refl, inl, inr, Bool, true, false, Option, none, some, List, [], ◌∷◌, ◌++◌, arith, ◌==◌,
  find, put, find-put, key-find, find-append_old, Bool-cases, Option-cases, is_none, Text,
}
use ai_game.Errors.{Error, Result, ok, err}
use ai_game.Constants.{AgentName, AgentRunStatus, ToolCallStatus}
use ai_game.Agents.Tables.{
  AgentRun, Audit, run_key, call_key, find_run, is_created, is_running, is_active,
}
use ai_game.Agents.Service.{
  has_active_run, new_run, create_run, change_run, start_run, record_iteration, record_run_llm_call,
  complete_run, fail_run, create_tool_call, start_tool_call, finish_tool_call, started_run,
  iterated_run, called_run, counted_run,
}
use ai_game.Agents.Recording.{finish_tool_call-runs, start_tool_call-runs}

pub data Call : Type 0 where
  creating : (id workflow_id campaign_id : ℕ) → AgentName → Call
  starting : (id : ℕ) → Call
  iterating : (id : ℕ) → Call
  calling_llm : (id : ℕ) → Call
  completing : (now id : ℕ) → Call
  failing : (now : ℕ) → Error → (limit : Bool) → (id : ℕ) → Call
  requesting_tool : (call_id id : ℕ) → Text → Call
  starting_tool : (call_id : ℕ) → Call
  finishing_tool : (now : ℕ) → ToolCallStatus → Option Error → (call_id : ℕ) → Call

unfoldable pub answer : Call → Audit → Result Audit
answer (creating id workflow_id campaign_id agent) = create_run id workflow_id campaign_id agent
answer (starting id) = start_run id
answer (iterating id) = record_iteration id
answer (calling_llm id) = record_run_llm_call id
answer (completing now id) = complete_run now id
answer (failing now e limit id) = fail_run now e limit id
answer (requesting_tool call_id id name) = create_tool_call call_id id name
answer (starting_tool call_id) = start_tool_call call_id
answer (finishing_tool now status e call_id) = finish_tool_call now status e call_id

-- The tables after a call, which commits, or raises and leaves them.
abbrev pub left : Audit → Result Audit → Audit
left a (ok a') = a'
left a (err e) = a

unfoldable pub replay : List Call → Audit → Audit
unfolding answer
replay [] a = a
replay (call ∷ rest) a = replay rest (left a (answer call a))

-- What a call may do to the runs: nothing, a change of an active one that keeps its key, its workflow and
-- its agent, or the creation of one where none is active.
pub data Touches (a : Audit) : List AgentRun → Type 0 where
  no_run : Touches a a.runs
  changes :
      (id : ℕ) (run run' : AgentRun)
      → find_run id a.runs ≡ some run
      → is_active run.status ≡ true
      → run'.agent_run_id ≡ run.agent_run_id
      → run'.workflow_id ≡ run.workflow_id
      → run'.agent_name ≡ run.agent_name
      → Touches a (put run_key run' a.runs)
  creates :
      (id workflow_id campaign_id : ℕ) (agent : AgentName)
      → find_run id a.runs ≡ none
      → has_active_run workflow_id agent a.runs ≡ false
      → Touches a (a.runs ++ new_run id workflow_id campaign_id agent ∷ [])

changed-Touches :
    (allowed : AgentRunStatus → Bool) (change : AgentRun → AgentRun)
    → ((s : AgentRunStatus) → allowed s ≡ true → is_active s ≡ true)
    → ((r : AgentRun)
        → ((change r).agent_run_id ≡ r.agent_run_id)
          × ((change r).workflow_id ≡ r.workflow_id)
          × ((change r).agent_name ≡ r.agent_name))
    → (id : ℕ) (a : Audit) → Touches a (left a (change_run allowed change id a)).runs
changed-Touches allowed change active same id a = elim (Option-cases (find_run id a.runs)) [
  | inl f ↦ rw f no_run
  | inr (run, f) ↦ elim (Bool-cases (allowed run.status)) [
    | inl h ↦
        let (key, workflow, agent) = same run in
        rw (f, h) (changes id run (change run) f (active run.status h) key workflow agent)
    | inr h ↦ rw (f, h) no_run
  ]
]

unchanged-Touches :
    (a : Audit) (r : Result Audit)
    → ((a' : Audit) → r ≡ ok a' → a'.runs ≡ a.runs)
    → Touches a (left a r).runs
unchanged-Touches a (err e) k = no_run
unchanged-Touches a (ok a') k = rw (k a' refl) no_run

requested-Touches :
    (call_id id : ℕ) (name : Text) (a : Audit)
    → Touches a (left a (create_tool_call call_id id name a)).runs
unfolding create_tool_call
requested-Touches call_id id name a = elim (Option-cases (find_run id a.runs)) [
  | inl f ↦ rw (create_tool_call, f) no_run
  | inr (run, f) ↦ elim (Bool-cases (is_running run.status)) [
    | inr h ↦ rw (create_tool_call, f, h) no_run
    | inl h ↦ elim (Bool-cases (is_none (find call_key call_id a.tool_calls))) [
      | inr n ↦ rw (create_tool_call, f, h, n) no_run
      | inl n ↦
          rw (create_tool_call, f, h, n)
            (changes id run (counted_run run) f (ground (arith, h)) refl refl refl)
    ]
  ]
]

created-Touches :
    (id workflow_id campaign_id : ℕ) (agent : AgentName) (a : Audit)
    → Touches a (left a (create_run id workflow_id campaign_id agent a)).runs
unfolding create_run
created-Touches id workflow_id campaign_id agent a =
    elim (Bool-cases (has_active_run workflow_id agent a.runs)) [
      | inl h ↦ rw (create_run, h) no_run
      | inr h ↦ elim (Option-cases (find_run id a.runs)) [
        | inr (run, f) ↦ rw (create_run, h, f) no_run
        | inl f ↦ rw (create_run, h, f) (creates id workflow_id campaign_id agent f h)
      ]
    ]

pub touches : (call : Call) (a : Audit) → Touches a (left a (answer call a)).runs
unfolding answer start_run record_iteration record_run_llm_call complete_run fail_run
touches (starting id) a =
    changed-Touches is_created started_run (λ s h. ground (arith, h)) (λ r. (refl, refl, refl)) id a
touches (iterating id) a =
    changed-Touches is_running iterated_run (λ s h. ground (arith, h)) (λ r. (refl, refl, refl)) id
      a
touches (calling_llm id) a =
    changed-Touches is_running called_run (λ s h. ground (arith, h)) (λ r. (refl, refl, refl)) id a
touches (completing now id) a =
    changed-Touches is_running _ (λ s h. ground (arith, h)) (λ r. (refl, refl, refl)) id a
touches (failing now e limit id) a =
    changed-Touches is_active _ (λ s h. h) (λ r. (refl, refl, refl)) id a
touches (requesting_tool call_id id name) a = requested-Touches call_id id name a
touches (starting_tool call_id) a = unchanged-Touches a _ (start_tool_call-runs 0 call_id a)
touches (finishing_tool now status e call_id) a =
    unchanged-Touches a _ (finish_tool_call-runs now status e call_id a)
touches (creating id workflow_id campaign_id agent) a =
    created-Touches id workflow_id campaign_id agent a

finished_kept :
    (a : Audit) (runs : List AgentRun) (j : ℕ) (run : AgentRun)
    → Touches a runs
    → find_run j a.runs ≡ some run
    → is_active run.status ≡ false
    → find_run j runs ≡ some run
finished_kept a _ j run no_run f over = f
finished_kept a _ j run (changes id old new g active key w n) f over =
    let at : old.agent_run_id ≡ id = key-find run_key id a.runs old g in
    elim (Bool-cases (j == id)) [
      | inl here ↦
          let same : j ≡ id = ground (arith, here) in
          let is_old : run ≡ old = cc (f, g, same) in absurd (ground (arith, over, active, is_old))
      | inr elsewhere ↦ ground (arith, find-put run_key j new a.runs, f, key, at, elsewhere)
    ]
finished_kept a _ j run (creates id w c agent g none_active) f over =
    find-append_old run_key j (new_run id w c agent) a.runs run f

-- A finished run stays as it is in every history.
pub finished_run-stays :
    (calls : List Call) (a : Audit) (j : ℕ) (run : AgentRun)
    → find_run j a.runs ≡ some run
    → is_active run.status ≡ false
    → find_run j (replay calls a).runs ≡ some run
unfolding replay
finished_run-stays [] a j run f over = f
finished_run-stays (call ∷ rest) a j run f over =
    finished_run-stays rest (left a (answer call a)) j run
      (finished_kept a _ j run (touches call a) f over) over
