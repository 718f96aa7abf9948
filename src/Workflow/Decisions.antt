-- ===== src/Workflow/Decisions.antt =====
-- What a human decision needs and does (app/service/approval_service.py).
use ai_game.Base.{
  ℕ, ◌≡◌, refl, true, false, some, none, arith, ◌++◌, ◌∷◌, [], Option-cases, inl, inr, key-find,
}
use ai_game.Errors.{ok}
use ai_game.Constants.{pending_approval, UserRole}
use ai_game.Workflow.State.{ensure_valid_transition}
use ai_game.Workflow.Tables.{
  WorkflowRun, Campaign, ApprovalRecord, Db, find_campaign, find_workflow, has_final_decision,
  save_pair,
}
use ai_game.Workflow.Pairs.{IsPair, save_pair-IsPair}
use ai_game.Workflow.Approval.{
  ApprovalRequest, is_approver, decided_status, resulting_version, approval_record, record_decision,
  decide_transaction, mark_completed,
}

-- The checks that a decision has passed, and what it has written.
pub record IsDecision (now : ℕ) (q : ApprovalRequest) (actor_id : ℕ) (role : UserRole) (db db' : Db)
    : Type 0 where
  pub workflow : WorkflowRun
  pub campaign : Campaign
  pub pair : IsPair q.workflow_id db workflow campaign
  pub scope : workflow.campaign_id ≡ q.campaign_id
  pub by_approver : is_approver role ≡ true
  pub was_pending : workflow.status ≡ pending_approval
  pub was_undecided : has_final_decision q.workflow_id db ≡ false
  pub version_matched : campaign.version ≡ q.expected_version
  pub workflow_after :
      find_workflow q.workflow_id db'
      ≡ some (mark_completed now (record workflow { status = decided_status q.decision }))
  pub campaign_after :
      find_campaign q.campaign_id db'
      ≡ some (record campaign {
        status = decided_status q.decision;
        version = resulting_version q.decision campaign.version;
      })
  pub approvals_after :
      db'.approvals ≡ db.approvals ++ approval_record now q actor_id role campaign.version ∷ []

module _ (now : ℕ) (q : ApprovalRequest) (actor_id : ℕ) (role : UserRole) (db db' : Db)
    (a : ApprovalRecord) where
  -- `decide` on rows that are there.
  decided_rows :
      (w : WorkflowRun) (c : Campaign)
      → find_campaign q.campaign_id db ≡ some c
      → find_workflow q.workflow_id db ≡ some w
      → decide_transaction now q actor_id role db ≡ ok (a, db')
      → (is_approver role ≡ true)
        × (w.campaign_id ≡ q.campaign_id)
        × (has_final_decision q.workflow_id db ≡ false)
        × (w.status ≡ pending_approval)
        × (c.version ≡ q.expected_version)
        × (record_decision now q actor_id role w c db ≡ ok (a, db'))
  unfolding decide_transaction
  decided_rows w c x y h = ground arith

  decided_campaign :
      find_campaign q.campaign_id db ≡ none
      → decide_transaction now q actor_id role db ≡ ok (a, db')
      → ⊥
  unfolding decide_transaction
  decided_campaign x h = ground arith

  decided_workflow :
      (c : Campaign)
      → find_campaign q.campaign_id db ≡ some c
      → find_workflow q.workflow_id db ≡ none
      → decide_transaction now q actor_id role db ≡ ok (a, db')
      → ⊥
  unfolding decide_transaction
  decided_workflow c x y h = ground arith

  -- What `record_decision` writes on a pending pair.
  recorded_rows :
      (w : WorkflowRun) (c : Campaign)
      → w.status ≡ pending_approval
      → record_decision now q actor_id role w c db ≡ ok (a, db')
      → let w' = mark_completed now (record w { status = decided_status q.decision }) in
        let c' = record c {
          status = decided_status q.decision;
          version = resulting_version q.decision c.version;
        } in
        (a ≡ approval_record now q actor_id role c.version)
        × (db' ≡ record (save_pair w' c' db) { approvals = db.approvals ++ a ∷ [] })
  unfolding record_decision ensure_valid_transition
  recorded_rows w c p h = ground arith

  decided-IsPair :
      (w : WorkflowRun) (c : Campaign)
      → find_campaign q.campaign_id db ≡ some c
      → find_workflow q.workflow_id db ≡ some w
      → w.campaign_id ≡ q.campaign_id
      → IsPair q.workflow_id db w c
  decided-IsPair w c x y e = ground (
    arith,
    key-find (λ (v : WorkflowRun). v.workflow_id) q.workflow_id db.workflows w,
    key-find (λ (d : Campaign). d.campaign_id) q.campaign_id db.campaigns c,
  )

  rows-IsDecision :
      (w : WorkflowRun) (c : Campaign)
      → find_campaign q.campaign_id db ≡ some c
      → find_workflow q.workflow_id db ≡ some w
      → decide_transaction now q actor_id role db ≡ ok (a, db')
      → IsDecision now q actor_id role db db'
  rows-IsDecision w c x y h =
      let (by, scope, first, waiting, fresh, made) = decided_rows w c x y h in
      let p = decided-IsPair w c x y scope in
      let (same, after) = recorded_rows w c waiting made in
      let w' = mark_completed now (record w { status = decided_status q.decision }) in
      let c' = record c {
        status = decided_status q.decision;
        version = resulting_version q.decision c.version;
      } in
      let p' = save_pair-IsPair q.workflow_id db w w' c c' p refl refl refl in
      record {
        workflow = w;
        campaign = c;
        pair = p;
        scope = scope;
        by_approver = by;
        was_pending = waiting;
        was_undecided = first;
        version_matched = fresh;
        workflow_after = rw after p'.workflow_at;
        campaign_after = rw (after, ← scope) p'.campaign_at;
        approvals_after = cc (after, same);
      }

  -- A decision that `decide` commits was made by a reviewer, a manager or an admin, on a workflow of the
  -- named campaign that was pending and had no decision, at the version that the caller expected. After
  -- it the workflow is completed in the status of the decision, the campaign has that status, and a
  -- version one higher exactly for a revision, and one approval record is added.
  pub decide-IsDecision :
      decide_transaction now q actor_id role db ≡ ok (a, db')
      → IsDecision now q actor_id role db db'
  decide-IsDecision h = elim (Option-cases (find_campaign q.campaign_id db)) [
    | inl missing ↦ absurd (decided_campaign missing h)
    | inr (c, x) ↦ elim (Option-cases (find_workflow q.workflow_id db)) [
      | inl missing ↦ absurd (decided_workflow c x missing h)
      | inr (w, y) ↦ rows-IsDecision w c x y h
    ]
  ]
