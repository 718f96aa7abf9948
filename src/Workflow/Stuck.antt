-- ===== src/Workflow/Stuck.antt =====
-- Two ways in which an automated run goes where it cannot finish.
use ai_game.Base.{
  ℕ, suc, ◌≡◌, ◌≢◌, sym, true, none, some, arith, List, [], ◌∷◌, ◌++◌, ◌==◌, any-append,
}
use ai_game.Errors.{ok, err, invalid_state_transition}
use ai_game.Constants.{generating, UserRole}
use ai_game.Workflow.Tables.{WorkflowRun, Campaign, ApprovalRecord, Db, has_final_decision}
use ai_game.Workflow.Failures.{is_conflict_error}
use ai_game.Workflow.Run.{Environment, run_to_pending_approval}
use ai_game.Workflow.Pairs.{IsPair}
use ai_game.Workflow.Approval.{ApprovalRequest, decide_transaction, approval_record}
use ai_game.Workflow.Decisions.{IsDecision, decide-IsDecision}
use ai_game.Workflow.Rounds.{round_unanalyzed}

-- A workflow in GENERATING whose campaign has no stored analysis is never repaired: whatever the
-- specialists do and however much fuel is given (at least one round), the run raises
-- InvalidStateTransitionError and leaves the tables as they were.
pub run_unanalyzed :
    (fuel : ℕ) (env : Environment) (i : ℕ) (db : Db) (w : WorkflowRun) (c : Campaign)
    → IsPair i db w c
    → w.status ≡ generating
    → c.brief_analysis ≡ none
    → run_to_pending_approval (suc fuel) env i db ≡ some (err invalid_state_transition, db)
unfolding run_to_pending_approval is_conflict_error
run_unanalyzed fuel env i db w c p h a = ground (arith, round_unanalyzed env i db w c p h a)

-- A record for a workflow is found, whatever stands before and after it.
pub recorded_decided :
    (i : ℕ) (before more : List ApprovalRecord) (a : ApprovalRecord) (later : Db)
    → a.workflow_id ≡ i
    → later.approvals ≡ (before ++ a ∷ []) ++ more
    → has_final_decision i later ≡ true
unfolding has_final_decision
recorded_decided i before more a later e grown =
    let same = λ (x : ApprovalRecord). i == x.workflow_id in
    rw (grown, any-append same (before ++ a ∷ []) more, any-append same before (a ∷ []))
      (ground arith)

module _ (now : ℕ) (q : ApprovalRequest) (actor_id : ℕ) (role : UserRole) (db db' : Db)
    (d : IsDecision now q actor_id role db db') where
  -- Once a workflow is decided, no later decision on it is committed, in any state whose approval table
  -- still holds the records that are there after the first.
  pub decide_once :
      (later : Db) (more : List ApprovalRecord)
      → later.approvals ≡ db'.approvals ++ more
      → (now2 : ℕ) (q2 : ApprovalRequest) (actor2 : ℕ) (role2 : UserRole)
      → q2.workflow_id ≡ q.workflow_id
      → (a : ApprovalRecord) (after : Db)
      → decide_transaction now2 q2 actor2 role2 later ≢ ok (a, after)
  decide_once later more grown now2 q2 actor2 role2 same a after h =
      let again = (decide-IsDecision now2 q2 actor2 role2 later after a h).was_undecided in
      let found =
        recorded_decided q2.workflow_id db.approvals more
          (approval_record now q actor_id role d.campaign.version) later
          (unfold approval_record in sym same) (rw grown (rw d.approvals_after)) in
      cc (again, found)
