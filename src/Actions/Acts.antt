-- ===== src/Actions/Acts.antt =====
-- What the handlers of actions may do: look at the rows as they were reserved, count a version up, or move
-- campaign and workflow together.
use ai_game.Base.{ℕ, ◌+◌, ◌≡◌, refl, ◌⊎◌, inl, inr, true, some, arith, put, All, Bool-cases, leb}
use ai_game.Errors.{
  Error, Result, ok, err, transact, Result-cases, unexpected, action_state_changed,
}
use ai_game.Constants.{
  CampaignStatus, generating, manual_review_required, WorkflowStep, generate_content, human_review,
  status_eq→≡,
}
use ai_game.Workflow.State.{can_transition}
use ai_game.Workflow.Tables.{WorkflowRun, Campaign, Db, find_campaign, find_workflow, save_pair}
use ai_game.Actions.Policy.{ActionExecutionGuard, ActionDefinition, ActionInput}
use ai_game.Actions.Guard.{
  is_unchanged, locked_pair, validate, CampaignMetadataUpdate, metadata_update, with_metadata,
  update_metadata, guarded_transition,
}
use ai_game.Actions.Campaign.{
  InputModels, internal_action_result, validated, prepare_revision, update_campaign_metadata,
  default_definitions,
}

-- The campaign and its workflow stand as they were reserved.
abbrev pub Reserved : ActionExecutionGuard → Db → Campaign → WorkflowRun → Type 0
Reserved guard db campaign workflow =
    (find_campaign guard.campaign_id db ≡ some campaign)
    × (find_workflow guard.workflow_id db ≡ some workflow)
    × (workflow.campaign_id ≡ campaign.campaign_id)
    × (campaign.status ≡ guard.expected_campaign_status)
    × (campaign.version ≡ guard.expected_campaign_version)
    × (workflow.status ≡ guard.expected_workflow_status)
    × (workflow.revision_number ≡ guard.expected_revision_number)

-- The outcomes of a handler: it fails and changes nothing, it only looks, it writes the columns of the
-- brief that the input gives and counts the campaign's version up, or it moves both rows, by an allowed transition, to GENERATING or MANUAL_REVIEW_REQUIRED.
pub data Acts (guard : ActionExecutionGuard) (input : ActionInput) (db : Db)
    : Result (Unit {0}) × Db → Type 0 where
  fails : (e : Error) → Acts guard input db (err e, db)
  looks : (c : Campaign) (w : WorkflowRun) → Reserved guard db c w → Acts guard input db (ok tt, db)
  writes :
      (c : Campaign) (w : WorkflowRun) (payload : CampaignMetadataUpdate)
      → Reserved guard db c w
      → metadata_update input.tone input.target_audience input.promotion ≡ ok payload
      → Acts guard input db (
        ok tt,
        record db {
          campaigns =
              put
                (λ (x : Campaign). x.campaign_id)
                (record (with_metadata payload c) { version = c.version + 1 })
                db.campaigns;
        },
      )
  moves :
      (c : Campaign) (w : WorkflowRun) (next : CampaignStatus) (step : WorkflowStep)
      → Reserved guard db c w
      → (next ≡ generating) ⊎ (next ≡ manual_review_required)
      → can_transition w.status next ≡ true
      → Acts guard input db (
        ok tt,
        save_pair (record w { status = next; current_step = step }) (record c { status = next }) db,
      )

module _ (guard : ActionExecutionGuard) (input : ActionInput) (db : Db) where
  pair_found :
      (c : Campaign) (w : WorkflowRun)
      → locked_pair guard db ≡ ok (c, w)
      → (find_campaign guard.campaign_id db ≡ some c)
        × (find_workflow guard.workflow_id db ≡ some w)
        × (w.campaign_id ≡ c.campaign_id)
        × (is_unchanged guard c w ≡ true)
  unfolding locked_pair
  pair_found c w h = ground (arith, h)

  locked_pair-Reserved :
      (c : Campaign) (w : WorkflowRun) → locked_pair guard db ≡ ok (c, w) → Reserved guard db c w
  unfolding is_unchanged
  locked_pair-Reserved c w h =
      let (found_c, found_w, own, u) = pair_found c w h in
      (
        found_c,
        found_w,
        own,
        status_eq→≡ c.status guard.expected_campaign_status (ground (arith, u)),
        ground (arith, u),
        status_eq→≡ w.status guard.expected_workflow_status (ground (arith, u)),
        ground (arith, u),
      )

  validated-Acts : Acts guard input db (transact (validated guard) db)
  unfolding validated validate
  validated-Acts = elim (Result-cases (locked_pair guard db)) [
    | inr (e, r) ↦ rw (validated, validate, r) (fails e)
    | inl ((c, w), r) ↦ rw (validated, validate, r) (looks c w (locked_pair-Reserved c w r))
  ]

  prepare_revision-Acts : Acts guard input db (transact (prepare_revision input guard) db)
  unfolding prepare_revision validate internal_action_result
  prepare_revision-Acts = elim (Result-cases (locked_pair guard db)) [
    | inr (e, r) ↦ rw (prepare_revision, validate, r) (fails e)
    | inl ((c, w), r) ↦ elim (Bool-cases (leb (39 + 16 + input.text_length) 5000)) [
      | inl fits ↦
          rw (prepare_revision, validate, r, internal_action_result, fits)
            (looks c w (locked_pair-Reserved c w r))
      | inr long ↦
          rw (prepare_revision, validate, r, internal_action_result, long) (fails unexpected)
    ]
  ]

  update_metadata-Acts :
      (payload : CampaignMetadataUpdate)
      → metadata_update input.tone input.target_audience input.promotion ≡ ok payload
      → Acts guard input db (transact (update_metadata payload guard) db)
  unfolding update_metadata
  update_metadata-Acts payload p = elim (Result-cases (locked_pair guard db)) [
    | inr (e, r) ↦ rw (update_metadata, r) (fails e)
    | inl ((c, w), r) ↦ rw (update_metadata, r) (writes c w payload (locked_pair-Reserved c w r) p)
  ]

  update_campaign_metadata-Acts :
      Acts guard input db (transact (update_campaign_metadata input guard) db)
  unfolding update_campaign_metadata
  update_campaign_metadata-Acts =
      elim (Result-cases (metadata_update input.tone input.target_audience input.promotion)) [
        | inr (e, p) ↦ rw (update_campaign_metadata, p) (fails e)
        | inl (payload, p) ↦ rw (update_campaign_metadata, p) (update_metadata-Acts payload p)
      ]

  transition-Acts :
      (next : CampaignStatus) (step : WorkflowStep)
      → (next ≡ generating) ⊎ (next ≡ manual_review_required)
      → Acts guard input db (transact (guarded_transition guard next step) db)
  unfolding guarded_transition
  transition-Acts next step to = elim (Result-cases (locked_pair guard db)) [
    | inr (e, r) ↦ rw (guarded_transition, r) (fails e)
    | inl ((c, w), r) ↦ elim (Bool-cases (can_transition w.status next)) [
      | inl allowed ↦
          rw (guarded_transition, r, allowed)
            (moves c w next step (locked_pair-Reserved c w r) to allowed)
      | inr refused ↦ rw (guarded_transition, r, refused) (fails action_state_changed)
    ]
  ]

-- Every handler of the default registry, on whatever input, fails without a change, or finds the campaign
-- and the workflow as they were reserved and then only looks, writes the tone, the
-- audience and the promotion that a valid input gives and counts the campaign's version up, or moves both by an allowed transition to GENERATING or MANUAL_REVIEW_REQUIRED.
pub default_definitions-Acts :
    (ttl : ℕ) (models : InputModels) (input : ActionInput) (guard : ActionExecutionGuard) (db : Db)
    → All
        (λ (d : ActionDefinition). Acts guard input db (d.handler input guard db))
        (default_definitions ttl models)
unfolding default_definitions
default_definitions-Acts ttl models input guard db =
    let looked = validated-Acts guard input db in
    let drafted = prepare_revision-Acts guard input db in
    let written = update_campaign_metadata-Acts guard input db in
    let regenerated = transition-Acts guard input db generating generate_content (inl refl) in
    let marked = transition-Acts guard input db manual_review_required human_review (inr refl) in
    (looked, (looked, (drafted, (written, (regenerated, (looked, (marked, tt)))))))
