-- ===== src/Workflow/Creation.antt =====
-- What `create_workflow` has checked and added.
use ai_game.Base.{
  ℕ, ◌+◌, ◌≡◌, refl, sym, ap, ◌∙◌, Bool, true, false, ◌&&◌, Option, none, some, List, [], ◌∷◌, ◌++◌,
  arith, ltb, leb, if◌then◌else◌, any, find-append_one, key-find, Option-cases, Bool-cases, inl,
  inr,
}
use ai_game.Errors.{ok}
use ai_game.Constants.{received, revision_required, status_eq, status_in, status_eq→≡}
use ai_game.Workflow.Tables.{WorkflowRun, Campaign, Db, find_campaign, find_workflow, is_live}
use ai_game.Workflow.Service.{
  is_live_for, has_active_for_campaign, comes_before, is_revision_parent, latest_parent,
  latest_revision_parent_for_campaign, new_workflow, insert_workflow, prepare_workflow,
  create_workflow,
}
use ai_game.Workflow.Pairs.{IsPair}

-- How many live workflows a campaign has.
abbrev pub live_count : ℕ → List WorkflowRun → ℕ
live_count i [] = 0
live_count i (w ∷ rest) = (if is_live_for i w then 1 else 0) + live_count i rest

live-append :
    (i : ℕ) (w : WorkflowRun) (t : List WorkflowRun)
    → live_count i (t ++ w ∷ []) ≡ live_count i t + (if is_live_for i w then 1 else 0)
live-append i w [] = omega arith
live-append i w (x ∷ t) = omega (arith, live-append i w t)

none_live : (i : ℕ) (t : List WorkflowRun) → any (is_live_for i) t ≡ false → live_count i t ≡ 0
none_live i [] h = refl
none_live i (x ∷ t) h = ground (arith, none_live i t)

-- A workflow that was sent back for revision with a revision number of at least `n`.
abbrev pub revises_from : ℕ → ℕ → WorkflowRun → Bool
revises_from i n p = is_revision_parent i p && leb n p.revision_number

-- Whether a parent, if there is one, has a revision number under `n`.
abbrev under : ℕ → Option WorkflowRun → Bool
under n none = true
under n (some p) = ltb p.revision_number n

-- The latest parent has the highest revision number.
highest :
    (i n : ℕ) (t : List WorkflowRun)
    → under n (latest_parent i t) ≡ true
    → any (revises_from i n) t ≡ false
unfolding latest_parent comes_before
highest i n [] h = refl
highest i n (x ∷ t) h = ground (arith, h, highest i n t)

created_rows :
    (id now i : ℕ) (db db' : Db) (w : WorkflowRun) (c : Campaign)
    → find_campaign i db ≡ some c
    → create_workflow id now i db ≡ ok (w, db')
    → (status_in c.status (received ∷ revision_required ∷ []) ≡ true)
      × (has_active_for_campaign i db ≡ false)
      × (prepare_workflow id now c db ≡ ok w)
      × (find_workflow w.workflow_id db ≡ none)
      × (db' ≡ record db { workflows = db.workflows ++ w ∷ [] })
unfolding create_workflow insert_workflow
created_rows id now i db db' w c f h = ground (arith, f, h)

prepared :
    (id now : ℕ) (c : Campaign) (db : Db) (w : WorkflowRun)
    → status_in c.status (received ∷ revision_required ∷ []) ≡ true
    → prepare_workflow id now c db ≡ ok w
    → (w.workflow_id ≡ id)
      × (w.campaign_id ≡ c.campaign_id)
      × (w.status ≡ c.status)
      × (is_live w ≡ true)
unfolding prepare_workflow new_workflow is_live
prepared id now c db w s h = ground (arith, s, h)

numbered :
    (id now i : ℕ) (c : Campaign) (db : Db) (w : WorkflowRun)
    → c.campaign_id ≡ i
    → c.status ≡ revision_required
    → prepare_workflow id now c db ≡ ok w
    → under w.revision_number (latest_parent i db.workflows) ≡ true
unfolding prepare_workflow new_workflow latest_revision_parent_for_campaign
numbered id now i c db w k s h = ground (arith, k, s, h)

-- What a created workflow is.
pub record IsCreation (id i : ℕ) (db db' : Db) (w : WorkflowRun) : Type 0 where
  pub campaign : Campaign
  pub campaign_at : find_campaign i db ≡ some campaign
  pub creatable : status_in campaign.status (received ∷ revision_required ∷ []) ≡ true
  pub in_step : w.status ≡ campaign.status
  pub pair : IsPair id db' w campaign
  pub none_before : live_count i db.workflows ≡ 0
  pub one_after : live_count i db'.workflows ≡ 1
  pub revises :
      (status_eq campaign.status revision_required
        && any (revises_from i w.revision_number) db.workflows)
      ≡ false

revising :
    (id now i : ℕ) (c : Campaign) (db : Db) (w : WorkflowRun)
    → c.campaign_id ≡ i
    → prepare_workflow id now c db ≡ ok w
    → (status_eq c.status revision_required && any (revises_from i w.revision_number) db.workflows)
      ≡ false
revising id now i c db w k h = elim (Bool-cases (status_eq c.status revision_required)) [
  | inl e ↦
      rw
        (
          e,
          highest i w.revision_number db.workflows
              (numbered id now i c db w k (status_eq→≡ c.status revision_required e) h),
        )
        refl
  | inr e ↦ rw e refl
]

added-IsPair :
    (id i : ℕ) (c : Campaign) (db : Db) (w : WorkflowRun)
    → find_workflow w.workflow_id db ≡ none
    → find_campaign i db ≡ some c
    → w.workflow_id ≡ id
    → w.campaign_id ≡ c.campaign_id
    → c.campaign_id ≡ i
    → IsPair id (record db { workflows = db.workflows ++ w ∷ [] }) w c
added-IsPair id i c db w n f is_id of_campaign k = record {
  workflow_at = ground (
    arith,
    is_id,
    n,
    find-append_one (λ (x : WorkflowRun). x.workflow_id) w.workflow_id w db.workflows n,
  );
  campaign_at = ap (λ x. find_campaign x db) (of_campaign ∙ k) ∙ f;
  workflow_id_of = is_id;
  campaign_id_of = sym of_campaign;
}

added_live :
    (i : ℕ) (c : Campaign) (db : Db) (w : WorkflowRun)
    → live_count i db.workflows ≡ 0
    → w.campaign_id ≡ c.campaign_id
    → c.campaign_id ≡ i
    → is_live w ≡ true
    → live_count i (db.workflows ++ w ∷ []) ≡ 1
added_live i c db w z of_campaign k l =
    ground (arith, live-append i w db.workflows, z, of_campaign, k, l)

module _ (id now i : ℕ) (db db' : Db) (w : WorkflowRun) where
  creation :
      (c : Campaign)
      → find_campaign i db ≡ some c
      → create_workflow id now i db ≡ ok (w, db')
      → IsCreation id i db db' w
  unfolding has_active_for_campaign
  creation c f h =
      let (s, a, p, n, e) = created_rows id now i db db' w c f h in
      let (is_id, of_campaign, status, live) = prepared id now c db w s p in
      let k = key-find (λ (x : Campaign). x.campaign_id) i db.campaigns c f in
      record {
        campaign = c;
        campaign_at = f;
        creatable = s;
        in_step = status;
        pair = rw e (added-IsPair id i c db w n f is_id of_campaign k);
        none_before = none_live i db.workflows a;
        one_after = rw e (added_live i c db w (none_live i db.workflows a) of_campaign k live);
        revises = revising id now i c db w k p;
      }

  -- A workflow is created only for a campaign that is there, in RECEIVED or REVISION_REQUIRED, and that has
  -- no live workflow. The new row is in the campaign's status and is its one live workflow; for a revision,
  -- its number is above that of every workflow of the campaign that was sent back for revision.
  pub create_workflow-IsCreation :
      create_workflow id now i db ≡ ok (w, db') → IsCreation id i db db' w
  unfolding create_workflow
  create_workflow-IsCreation h = elim (Option-cases (find_campaign i db)) [
    | inl f ↦ absurd (ground (arith, f, h))
    | inr (c, f) ↦ creation c f h
  ]
