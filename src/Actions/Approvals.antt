-- ===== src/Actions/Approvals.antt =====
-- What an approval has checked and what it writes.
use ai_game.Base.{ℕ, ◌≡◌, ◌≢◌, inl, inr, false, some, arith, Bool-cases, Option-cases, codes, ◌++◌}
use ai_game.Errors.{ok, Result-cases}
use ai_game.Constants.{ActionRequestStatus}
use ai_game.Auth.Roles.{AuthenticatedActor, agent_text, require_action_approval}
use ai_game.Auth.Levels.{MayDecide, require_action_approval_iff}
use ai_game.Actions.Tables.{ActionRequest, Store, find_request, save_request}
use ai_game.Actions.Requests.{approve_request, approved_request}
use ai_game.Actions.Reserve.{has_lapsed}
use ai_game.Actions.Service.{Circumstances, decidable_request, approve}

-- The request waits for a decision at the expected version, and the actor may take it: neither SYSTEM nor
-- the agent that proposed the action, with a role that reaches the one asked for.
abbrev pub Decidable :
    AuthenticatedActor → (id expected_version : ℕ) → Store → ActionRequest → Type 0
Decidable actor id expected_version store request =
    (find_request id store ≡ some request)
    × (request.version ≡ expected_version)
    × (request.status ≡ ActionRequestStatus.pending_approval)
    × MayDecide actor request.required_role
    × (actor.actor_id ≢ codes "agent:" ++ agent_text request.agent_name)

module _ (actor : AuthenticatedActor) (id expected_version : ℕ) (store : Store) where
  pub decidable_request-Decidable :
      (request : ActionRequest)
      → decidable_request actor id expected_version store ≡ ok request
      → Decidable actor id expected_version store request
  unfolding decidable_request
  decidable_request-Decidable request h = elim (Option-cases (find_request id store)) [
    | inl f ↦ ground (arith, h, f)
    | inr (found, f) ↦
        elim (Result-cases (require_action_approval actor found.required_role found.agent_name)) [
          | inr (e, a) ↦ ground (arith, h, f, a)
          | inl (done, a) ↦
              let (may, other) =
                (require_action_approval_iff actor found.required_role found.agent_name).0
                  (ground (arith, a)) in
              let facts : (found.version ≡ expected_version)
                  × (found.status ≡ ActionRequestStatus.pending_approval)
                  × (found ≡ request) =
                ground (arith, h, f, a) in
              rw (← facts.2) (f, facts.0, facts.1, may, other)
        ]
  ]

  -- An approval that succeeds was given for a request that waits for it at the expected version and has not
  -- lapsed, by an actor who may decide on it; the request is then approved by that actor, under the next
  -- version, and nothing else is changed.
  pub approve-Decidable :
      (c : Circumstances) (store' : Store)
      → approve c actor id expected_version store ≡ (ok tt, store')
      → (request : ActionRequest) × (Decidable actor id expected_version store request
          × (has_lapsed c.now request.expires_at ≡ false)
          × (store'
              ≡ save_request (approved_request c.now actor.actor_id actor.role request) store))
  unfolding approve approve_request
  approve-Decidable c store' h =
      elim (Result-cases (decidable_request actor id expected_version store)) [
        | inr (e, d) ↦ ground (arith, h, d)
        | inl (request, d) ↦
            let decidable = decidable_request-Decidable request d in
            elim (Bool-cases (has_lapsed c.now request.expires_at)) [
              | inl l ↦ ground (arith, h, d, l)
              | inr l ↦ (
                request,
                (decidable, l, ground (arith, h, d, l, decidable.0, decidable.1, decidable.2)),
              )
            ]
      ]
