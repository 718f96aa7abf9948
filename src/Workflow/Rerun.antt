-- ===== src/Workflow/Rerun.antt =====
-- A workflow that was sent back for revision can be run again, although it is closed. (At-least-once
-- delivery of its WORKFLOW_RUN job is enough: app/jobs/handlers.py does not look at `completed_at`.)
use ai_game.Base.{
  ℕ, suc, ◌+◌, ◌*◌, ◌≤◌, ◌≡◌, ◌≢◌, refl, ap, ◌∙◌, Bool, true, false, some, List, ◌++◌, arith,
}
use ai_game.Errors.{Result, ok, err, workflow_creation_not_allowed}
use ai_game.Constants.{
  CampaignStatus, received, revision_required, UserRole, request_revision, generating,
  generate_content,
}
use ai_game.Workflow.Tables.{
  WorkflowRun, Campaign, ApprovalRecord, Db, find_campaign, find_workflow, save_pair,
}
use ai_game.Workflow.Approval.{
  ApprovalRequest, mark_completed, decided_status, resulting_version, decide_transaction,
}
use ai_game.Workflow.Decisions.{IsDecision}
use ai_game.Workflow.Run.{Environment, again, round, handle_exception, run_to_pending_approval}
use ai_game.Workflow.Service.{create_workflow}
use ai_game.Workflow.Pairs.{IsPair, save_pair-IsPair}
use ai_game.Workflow.Effects.{moved, moved_campaign}
use ai_game.Workflow.Rounds.{round_revision_required}
use ai_game.Workflow.Automaton.{AutoEdge, start, AutoStep, stay, move, retry, AutoRun, here, onward}
use ai_game.Workflow.Progress.{LeavesProgress, rank_bound}
use ai_game.Workflow.Termination.{RunEnds, run_loop-Returns}
use ai_game.Workflow.Outcome.{handle_exception-RunEnds}
use ai_game.Workflow.Stuck.{decide_once}

-- The statuses from which a campaign gets a workflow.
abbrev can_start : CampaignStatus → Bool
can_start received = true
can_start revision_required = true
can_start _ = false

-- The automaton leads to none of them.
underway_edge : {s t : CampaignStatus} → AutoEdge s t → can_start t ≡ false
underway_edge start = refl
underway_edge _ = refl

underway_step :
    (max : ℕ) (s t : CampaignStatus) (r n : ℕ)
    → AutoStep max s r t n
    → can_start s ≡ false
    → can_start t ≡ false
underway_step max s t r n (stay e f) h = ground arith
underway_step max s t r n (move a b edge e f g) h = ground (arith, underway_edge edge)
underway_step max s t r n (retry e f g k) h = ground arith

underway_run :
    {max r : ℕ} {s t : CampaignStatus} {n : ℕ}
    → AutoRun max s r t n
    → can_start s ≡ false
    → can_start t ≡ false
underway_run here h = h
underway_run (onward run step) h = underway_step _ _ _ _ _ step (underway_run run h)

create_refused :
    (id now i : ℕ) (db : Db) (c : Campaign)
    → find_campaign i db ≡ some c
    → can_start c.status ≡ false
    → create_workflow id now i db ≡ err workflow_creation_not_allowed
unfolding create_workflow
create_refused id now i db c x h = ground arith

module _ (now : ℕ) (q : ApprovalRequest) (actor_id : ℕ) (role : UserRole) (db db' : Db)
    (d : IsDecision now q actor_id role db db') where
  abbrev closed : WorkflowRun
  closed = mark_completed now (record (d.workflow) { status = decided_status q.decision })

  abbrev returned : Campaign
  returned = record (d.campaign) {
    status = decided_status q.decision;
    version = resulting_version q.decision d.campaign.version;
  }

  closed-IsPair : IsPair q.workflow_id db' closed returned
  closed-IsPair = record {
    workflow_at = d.workflow_after;
    campaign_at = rw d.scope d.campaign_after;
    workflow_id_of = d.pair.workflow_id_of;
    campaign_id_of = d.pair.campaign_id_of;
  }

  abbrev rerun : WorkflowRun
  rerun = moved generating generate_content closed

  abbrev rerun_db : Db
  rerun_db = save_pair rerun (moved_campaign generating returned) db'

  rerun-IsPair : IsPair q.workflow_id rerun_db rerun (moved_campaign generating returned)
  rerun-IsPair =
      save_pair-IsPair q.workflow_id db' closed rerun returned (moved_campaign generating returned)
        closed-IsPair refl refl refl

  -- The whole run: its first round, which puts the pair in GENERATING, and what the loop does from there.
  rerun-RunEnds :
      q.decision ≡ request_revision
      → (env : Environment) → LeavesProgress env
      → (fuel : ℕ) → 2 * env.max_content_retries + 6 ≤ fuel
      → (res : Result WorkflowRun) × (db2 : Db) × (run_to_pending_approval
            (suc fuel)
            env
            q.workflow_id
            db'
          ≡ some (res, db2))
        × RunEnds env.max_content_retries q.workflow_id generating rerun.retry_count res db2
  unfolding run_to_pending_approval
  rerun-RunEnds e env leaves fuel enough =
      let first : round env q.workflow_id db' ≡ (ok again, rerun_db) =
        round_revision_required env q.workflow_id db' closed returned closed-IsPair (rw e) in
      let (res, db2, loops, ends) =
        run_loop-Returns env leaves q.workflow_id generating rerun.retry_count fuel rerun_db
          (record {
            workflow = rerun;
            campaign = moved_campaign generating returned;
            pair = rerun-IsPair;
            run = here;
            in_step = refl;
            less = omega (
              arith,
              rank_bound env.max_content_retries rerun (moved_campaign generating returned),
              enough,
            );
          }) in
      let last = handle_exception env q.workflow_id (res, db2) in
      (
        last.0,
        last.1,
        rw (first, loops) refl,
        handle_exception-RunEnds env q.workflow_id generating rerun.retry_count res db2 ends,
      )

  -- A workflow that was sent back for revision is closed, yet it can be run again. With fuel of twice the
  -- retry limit and seven the run returns or raises, if the specialists leave the columns that the loop
  -- reads; after it the campaign that the workflow's row names gets no new workflow, being in no status to
  -- start from. In any state that still holds the approval records of the decision, no other decision on
  -- the workflow is committed.
  pub rerun_strands :
      q.decision ≡ request_revision
      → (env : Environment) → LeavesProgress env
      → (fuel : ℕ) → 2 * env.max_content_retries + 6 ≤ fuel
      → (id2 now2 : ℕ) (later : Db) (more : List ApprovalRecord)
      → later.approvals ≡ db'.approvals ++ more
      → (now3 : ℕ) (q3 : ApprovalRequest) (actor3 : ℕ) (role3 : UserRole)
      → q3.workflow_id ≡ q.workflow_id
      → (a : ApprovalRecord) (after : Db)
      → ((res : Result WorkflowRun) × (db2 : Db) × (v : WorkflowRun) × (run_to_pending_approval
              (suc fuel)
              env
              q.workflow_id
              db'
            ≡ some (res, db2))
          × (find_workflow q.workflow_id db2 ≡ some v)
          × (create_workflow id2 now2 v.campaign_id db2 ≡ err workflow_creation_not_allowed))
        × (decide_transaction now3 q3 actor3 role3 later ≢ ok (a, after))
  rerun_strands e env leaves fuel enough id2 now2 later more held now3 q3 actor3 role3 same a
        after =
      let (res, db2, runs, ends) = rerun-RunEnds e env leaves fuel enough in
      let started = ap can_start ends.in_step ∙ underway_run ends.run refl in
      (
        (
          res,
          db2,
          ends.workflow,
          runs,
          ends.pair.workflow_at,
          create_refused id2 now2 ends.workflow.campaign_id db2 ends.campaign ends.pair.campaign_at
              started,
        ),
        decide_once now q actor_id role db db' d later more held now3 q3 actor3 role3 same a after,
      )
