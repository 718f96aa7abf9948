-- ===== src/Actions/Calls.antt =====
-- What the transactions on action requests do to the tables: proposals, decisions, the ends of executions.
use ai_game.Base.{
  ℕ, ◌+◌, ◌≡◌, refl, ap, ◌∙◌, inl, inr, true, some, arith, any, put, key-find, Bool-cases,
  Option-cases,
}
use ai_game.Errors.{Error, ok, transact, Result-cases}
use ai_game.Constants.{ActionRequestStatus, executing, ActionExecutionStatus}
use ai_game.Auth.Roles.{AuthenticatedActor}
use ai_game.Actions.Tables.{
  ActionRequest, ActionExecution, Store, request_key, execution_key, find_request, find_execution,
  save_request, ActionEvent, same_event_key, stage_action_event,
}
use ai_game.Actions.Requests.{
  find_request_by_key, approve_request, approved_request, reject_request, rejected_request,
  mark_request_completed, mark_request_failed, expire_request, expired_request,
}
use ai_game.Actions.Executions.{
  mark_execution_completed, mark_execution_failed, mark_execution_cancelled,
}
use ai_game.Actions.Reserve.{has_lapsed}
use ai_game.Actions.Finish.{required_pair, commit_success, commit_failure, commit_cancelled}
use ai_game.Actions.Service.{Circumstances, insert_proposal, decidable_request, approve, reject}
use ai_game.Actions.Approvals.{decidable_request-Decidable}
use ai_game.Actions.Life.{
  Step, approves, turns_down, lapses_pending, succeeds, fails, steps, Agrees, both_completed,
  both_failed, was_cancelled,
}
use ai_game.Actions.Effects.{Effect, idles, inserts, writes, ends}

-- The compare-and-sets on a row that they select.
module _ (id expected : ℕ) (s : Store) (a : ActionRequest) (f : find_request id s ≡ some a)
    (v : a.version ≡ expected) where
  expire_found :
      a.status ≡ ActionRequestStatus.pending_approval
      → (expire_request id expected s).1 ≡ save_request (expired_request a) s
  unfolding expire_request
  expire_found p = ground (arith, f, v, p)

  approve_found :
      (now : ℕ) (actor : AuthenticatedActor)
      → a.status ≡ ActionRequestStatus.pending_approval
      → approve_request now actor.actor_id actor.role id expected s
        ≡ (true, save_request (approved_request now actor.actor_id actor.role a) s)
  unfolding approve_request
  approve_found now actor p = ground (arith, f, v, p)

  reject_found :
      (now : ℕ) (actor : AuthenticatedActor)
      → a.status ≡ ActionRequestStatus.pending_approval
      → reject_request now actor.actor_id id expected s
        ≡ (true, save_request (rejected_request now actor.actor_id a) s)
  unfolding reject_request
  reject_found now actor p = ground (arith, f, v, p)

-- A decision writes a request that waits for it.
pending-Effect :
    (id : ℕ) (s : Store) (a a' : ActionRequest)
    → find_request id s ≡ some a
    → a.status ≡ ActionRequestStatus.pending_approval
    → a'.action_request_id ≡ a.action_request_id
    → Step ActionRequestStatus.pending_approval a'.status
    → a'.version ≡ a.version + 1
    → Effect s (save_request a' s)
pending-Effect id s a a' f p same step v =
    writes a a' (ap (λ i. find_request i s) (key-find request_key id s.requests a f) ∙ f)
      (rw p refl) same (steps (rw p step) v) refl refl

pub approve-Effect :
    (c : Circumstances) (actor : AuthenticatedActor) (id expected : ℕ) (s : Store)
    → Effect s (approve c actor id expected s).1
unfolding approve
approve-Effect c actor id expected s = elim (Result-cases (decidable_request actor id expected s)) [
  | inr (e, d) ↦ rw (approve, d) (idles refl refl)
  | inl (a, d) ↦
      let (f, v, p, _, _) = decidable_request-Decidable actor id expected s a d in
      elim (Bool-cases (has_lapsed c.now a.expires_at)) [
        | inl l ↦
            rw (approve, d, l, expire_found id expected s a f v p)
              (pending-Effect id s a _ f p refl lapses_pending refl)
        | inr l ↦
            rw (approve, d, l, approve_found id expected s a f v c.now actor p)
              (pending-Effect id s a _ f p refl approves refl)
      ]
]

pub reject-Effect :
    (c : Circumstances) (actor : AuthenticatedActor) (id expected : ℕ) (s : Store)
    → Effect s (reject c actor id expected s).1
unfolding reject
reject-Effect c actor id expected s = elim (Result-cases (decidable_request actor id expected s)) [
  | inr (e, d) ↦ rw (reject, d) (idles refl refl)
  | inl (a, d) ↦
      let (f, v, p, _, _) = decidable_request-Decidable actor id expected s a d in
      rw (reject, d, reject_found id expected s a f v c.now actor p)
        (pending-Effect id s a _ f p refl turns_down refl)
]

-- A new proposal is another row.
pub insert_proposal-Effect :
    (request : ActionRequest) (s : Store) → Effect s (transact (insert_proposal request) s).1
unfolding insert_proposal
insert_proposal-Effect request s =
    elim (Option-cases (find_request_by_key request.idempotency_key s.requests)) [
      | inr (existing, k) ↦ rw (insert_proposal, k) (idles refl refl)
      | inl k ↦ elim (Option-cases (find_request request.action_request_id s)) [
        | inr (taken, f) ↦ rw (insert_proposal, k, f) (idles refl refl)
        | inl f ↦ rw (insert_proposal, k, f) (inserts request f refl refl)
      ]
    ]

-- An execution that runs, and its request.
paired :
    (request_id execution_id : ℕ) (s : Store) (r : ActionRequest) (e : ActionExecution)
    → required_pair request_id execution_id s ≡ ok (r, e)
    → (find_request request_id s ≡ some r)
      × (find_execution execution_id s ≡ some e)
      × (e.status ≡ ActionExecutionStatus.running)
unfolding required_pair
paired request_id execution_id s r e h = elim (Option-cases (find_request request_id s)) [
  | inl f ↦ ground (arith, h, f)
  | inr (r1, f) ↦ elim (Option-cases (find_execution execution_id s)) [
    | inl g ↦ ground (arith, h, f, g)
    | inr (e1, g) ↦ ground (arith, h, f, g)
  ]
]

pub staged_rows :
    (event : ActionEvent) (s : Store)
    → ((stage_action_event event s).requests ≡ s.requests)
      × ((stage_action_event event s).executions ≡ s.executions)
unfolding stage_action_event
staged_rows event s = elim (Bool-cases (any (same_event_key event) s.events)) [
  | inl h ↦ rw (stage_action_event, h) (refl, refl)
  | inr h ↦ rw (stage_action_event, h) (refl, refl)
]

-- How the end of an execution is written, with or without an event.
abbrev Ended : Store → ActionRequest → ActionExecution → Store → Type 0
Ended s r e s' =
    (s'.requests ≡ put request_key r s.requests)
    × (s'.executions ≡ put execution_key e s.executions)

module _ (now execution_id : ℕ) (s : Store) (named : ActionExecution)
    (own : find_execution execution_id s ≡ some named) where
  abbrev request_id : ℕ
  request_id = named.action_request_id

  closing-Effect :
      (s' : Store) (r r' : ActionRequest) (e e' : ActionExecution)
      → required_pair request_id execution_id s ≡ ok (r, e)
      → r'.action_request_id ≡ r.action_request_id
      → e'.action_execution_id ≡ e.action_execution_id
      → e'.action_request_id ≡ e.action_request_id
      → Step executing r'.status
      → r'.version ≡ r.version + 1
      → Agrees e'.status r'.status
      → Ended s r' e' s'
      → Effect s s'
  closing-Effect s' r r' e e' h key id same step v m (q, p) =
      let (f, g, run) = paired request_id execution_id s r e h in
      let is_e : named ≡ e = ground (arith, own, g) in
      let found_r : find_request e.action_request_id s ≡ some r = rw (← is_e) f in
      let found_e : find_execution e.action_execution_id s ≡ some e =
        ap (λ i. find_execution i s) (key-find execution_key execution_id s.executions e g) ∙ g in
      ends r r' e e' found_r found_e run key id same step v m q p

  pub commit_success-Effect : Effect s (transact (commit_success now request_id execution_id) s).1
  unfolding commit_success mark_request_completed mark_execution_completed
  commit_success-Effect = elim (Result-cases (required_pair request_id execution_id s)) [
    | inr (e, h) ↦ rw (commit_success, h) (idles refl refl)
    | inl ((r, e), h) ↦
        rw (commit_success, h)
          (closing-Effect _ r (mark_request_completed r) e (mark_execution_completed now e) h refl
            refl refl succeeds refl both_completed (staged_rows _ _))
  ]

  pub commit_failure-Effect :
      (error : Error) → Effect s (transact (commit_failure now request_id execution_id error) s).1
  unfolding commit_failure mark_request_failed mark_execution_failed
  commit_failure-Effect error = elim (Result-cases (required_pair request_id execution_id s)) [
    | inr (e, h) ↦ rw (commit_failure, h) (idles refl refl)
    | inl ((r, e), h) ↦
        rw (commit_failure, h)
          (closing-Effect _ r (mark_request_failed r) e (mark_execution_failed now error e) h refl
            refl refl fails refl both_failed (staged_rows _ _))
  ]

  pub commit_cancelled-Effect :
      Effect s (transact (commit_cancelled now request_id execution_id) s).1
  unfolding commit_cancelled mark_request_failed mark_execution_cancelled
  commit_cancelled-Effect = elim (Result-cases (required_pair request_id execution_id s)) [
    | inr (e, h) ↦ rw (commit_cancelled, h) (idles refl refl)
    | inl ((r, e), h) ↦
        rw (commit_cancelled, h)
          (closing-Effect _ r (mark_request_failed r) e (mark_execution_cancelled now e) h refl refl
            refl fails refl was_cancelled (refl, refl))
  ]
