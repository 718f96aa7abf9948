-- ===== src/Actions/Effects.antt =====
-- What one transaction may do to requests and executions, and that it keeps both sound.
use ai_game.Base.{
  ℕ, ◌+◌, ◌≡◌, refl, ap, ◌∙◌, true, false, none, some, List, [], ◌∷◌, ◌++◌, arith, any, All-map,
  Distinct-put, append-Distinct, put, find, find-put, find-append_old, key-find,
}
use ai_game.Constants.{ActionRequestStatus, executing, ActionExecutionStatus}
use ai_game.Actions.Tables.{
  ActionRequest, ActionExecution, Store, request_key, execution_key, find_request, find_execution,
}
use ai_game.Actions.Executions.{same_request}
use ai_game.Actions.Life.{
  Step, Moves, stays, steps, Agrees, both_run, both_completed, both_failed, was_cancelled,
  is_waiting, request_of, Matches, Sound, waiting-Matches, MovesAt, put-Moves,
}
use ai_game.Actions.Ledger.{replaced-All, replaced-Distinct, unnamed, append-All, All-found}

-- Nothing; columns of an execution but its status; the insertion of a request; a move of one that waits; the start of an execution, the first of its
-- request; the end of an execution under way, and of its request.
pub data Effect (s s' : Store) : Type 0 where
  idles : s'.requests ≡ s.requests → s'.executions ≡ s.executions → Effect s s'
  notes :
      (e e' : ActionExecution)
      → find_execution e.action_execution_id s ≡ some e
      → e'.action_execution_id ≡ e.action_execution_id
      → e'.action_request_id ≡ e.action_request_id
      → e'.status ≡ e.status
      → s'.requests ≡ s.requests
      → s'.executions ≡ put execution_key e' s.executions
      → Effect s s'
  inserts :
      (r : ActionRequest)
      → find_request r.action_request_id s ≡ none
      → s'.requests ≡ s.requests ++ r ∷ []
      → s'.executions ≡ s.executions
      → Effect s s'
  writes :
      (a a' : ActionRequest)
      → find_request a.action_request_id s ≡ some a
      → is_waiting a.status ≡ true
      → a'.action_request_id ≡ a.action_request_id
      → Moves a a'
      → s'.requests ≡ put request_key a' s.requests
      → s'.executions ≡ s.executions
      → Effect s s'
  begins :
      (a a' : ActionRequest) (e : ActionExecution)
      → find_request a.action_request_id s ≡ some a
      → is_waiting a.status ≡ true
      → a'.action_request_id ≡ a.action_request_id
      → Moves a a'
      → a'.status ≡ executing
      → e.action_request_id ≡ a.action_request_id
      → e.status ≡ ActionExecutionStatus.running
      → any (same_request a.action_request_id) s.executions ≡ false
      → find_execution e.action_execution_id s ≡ none
      → s'.requests ≡ put request_key a' s.requests
      → s'.executions ≡ s.executions ++ e ∷ []
      → Effect s s'
  ends :
      (r r' : ActionRequest) (e e' : ActionExecution)
      → find_request e.action_request_id s ≡ some r
      → find_execution e.action_execution_id s ≡ some e
      → e.status ≡ ActionExecutionStatus.running
      → r'.action_request_id ≡ r.action_request_id
      → e'.action_execution_id ≡ e.action_execution_id
      → e'.action_request_id ≡ e.action_request_id
      → Step executing r'.status
      → r'.version ≡ r.version + 1
      → Agrees e'.status r'.status
      → s'.requests ≡ put request_key r' s.requests
      → s'.executions ≡ put execution_key e' s.executions
      → Effect s s'

inserted-Matches :
    (new : ActionRequest) (requests : List ActionRequest) (e : ActionExecution)
    → Matches requests e
    → Matches (requests ++ new ∷ []) e
inserted-Matches new requests e (r, g, m) =
    (r, find-append_old request_key e.action_request_id new requests r g, m)

-- The other executions look at other requests.
other-Matches :
    (id : ℕ) (r' : ActionRequest) (requests : List ActionRequest) (x : ActionExecution)
    → r'.action_request_id ≡ id
    → (x.action_request_id ≡ id → ⊥)
    → Matches requests x
    → Matches (put request_key r' requests) x
other-Matches id r' requests x key n (r, g, m) =
    (r, ground (arith, find-put request_key x.action_request_id r' requests, g, n, key), m)

-- The request of an execution under way is executing.
running-Matches :
    (s : ActionExecutionStatus) (t : ActionRequestStatus)
    → Agrees s t
    → s ≡ ActionExecutionStatus.running
    → t ≡ executing
running-Matches _ _ both_run h = refl
running-Matches _ _ both_completed h = ground (arith, h)
running-Matches _ _ both_failed h = ground (arith, h)
running-Matches _ _ was_cancelled h = ground (arith, h)

-- The request of a running execution, in sound tables, is executing.
executed :
    (s : Store) (e : ActionExecution) (r : ActionRequest)
    → Matches s.requests e
    → find_request e.action_request_id s ≡ some r
    → e.status ≡ ActionExecutionStatus.running
    → r.status ≡ executing
executed s e r (x, g, m) f h =
    let same : x ≡ r = ground (arith, f, g) in rw (← same) (running-Matches e.status x.status m h)

found-Matches :
    (s : Store) (e : ActionExecution)
    → Sound s
    → find_execution e.action_execution_id s ≡ some e
    → Matches s.requests e
found-Matches s e sound f =
    All-found (Matches s.requests) e.action_execution_id e s.executions f sound.agree

same_status-Matches :
    (requests : List ActionRequest) (e e' : ActionExecution)
    → e'.action_request_id ≡ e.action_request_id
    → e'.status ≡ e.status
    → Matches requests e
    → Matches requests e'
same_status-Matches requests e e' own kept (r, g, m) = (r, rw own g, rw kept m)

pub Effect-Moves :
    (s s' : Store) (j : ℕ) (r : ActionRequest)
    → Sound s
    → Effect s s'
    → find_request j s ≡ some r
    → MovesAt j r s'.requests
Effect-Moves s s' j r sound (idles q _) f = (r, ap (find request_key j) q ∙ f, stays refl refl)
Effect-Moves s s' j r sound (notes _ _ _ _ _ _ q _) f =
    (r, ap (find request_key j) q ∙ f, stays refl refl)
Effect-Moves s s' j r sound (inserts new _ q _) f = (
  r,
  ap (find request_key j) q ∙ find-append_old request_key j new s.requests r f,
  stays refl refl,
)
Effect-Moves s s' j r sound (writes a a' g w same m q _) f =
    rw q (put-Moves j r a a' s.requests f g same m)
Effect-Moves s s' j r sound (begins a a' e g w same m _ _ _ _ _ q _) f =
    rw q (put-Moves j r a a' s.requests f g same m)
Effect-Moves s s' j r sound (ends x x' e e' g h run key _ _ step v _ q _) f =
    let executing_now = executed s e x (found-Matches s e sound h) g run in
    let id = key-find request_key e.action_request_id s.requests x g in
    rw q (
      put-Moves j r x x' s.requests f (ap (λ i. find_request i s) id ∙ g) key
        (steps (rw executing_now step) v))

pub Effect-Sound : (s s' : Store) → Sound s → Effect s s' → Sound s'
Effect-Sound s s' sound (idles q p) = record {
  requests_distinct = rw q sound.requests_distinct;
  executions_distinct = rw p sound.executions_distinct;
  one_execution = rw p sound.one_execution;
  agree = rw (q, p) sound.agree;
}
Effect-Sound s s' sound (notes e e' h id own kept q p) = record {
  requests_distinct = rw q sound.requests_distinct;
  executions_distinct = rw p (Distinct-put execution_key e' s.executions sound.executions_distinct);
  one_execution =
      rw p (replaced-Distinct e.action_execution_id e e' id own s.executions h sound.one_execution);
  agree =
      rw (q, p)
        (replaced-All e.action_execution_id e e' id own (Matches s.requests) (Matches s.requests)
          (λ x n m. m) (same_status-Matches s.requests e e' own kept (found-Matches s e sound h))
          s.executions h sound.one_execution sound.agree);
}
Effect-Sound s s' sound (inserts new g q p) = record {
  requests_distinct = rw q (append-Distinct request_key new s.requests sound.requests_distinct g);
  executions_distinct = rw p sound.executions_distinct;
  one_execution = rw p sound.one_execution;
  agree = rw (q, p) (All-map (inserted-Matches new s.requests) s.executions sound.agree);
}
Effect-Sound s s' sound (writes a a' g w same m q p) = record {
  requests_distinct = rw q (Distinct-put request_key a' s.requests sound.requests_distinct);
  executions_distinct = rw p sound.executions_distinct;
  one_execution = rw p sound.one_execution;
  agree =
      rw (q, p)
        (All-map (λ e. waiting-Matches a a' s.requests e g same w) s.executions sound.agree);
}
Effect-Sound s s' sound (begins a a' e g w same m x own run unnamed_yet fresh q p) = record {
  requests_distinct = rw q (Distinct-put request_key a' s.requests sound.requests_distinct);
  executions_distinct =
      rw p (append-Distinct execution_key e s.executions sound.executions_distinct fresh);
  one_execution = rw p (
      append-Distinct request_of e s.executions sound.one_execution (
        ap (λ i. find request_of i s.executions) own
        ∙ unnamed a.action_request_id s.executions unnamed_yet));
  agree =
      rw (q, p)
        (append-All (Matches (put request_key a' s.requests)) e s.executions
          (All-map (λ y. waiting-Matches a a' s.requests y g same w) s.executions sound.agree)
          (
            a',
            ground (arith, find-put request_key e.action_request_id a' s.requests, own, same, g),
            rw (run, x) both_run,
          ));
}
Effect-Sound s s' sound (ends r r' e e' g h run key id own step v m q p) =
    let kept : r'.action_request_id ≡ e.action_request_id =
      key ∙ key-find request_key e.action_request_id s.requests r g in
    record {
      requests_distinct = rw q (Distinct-put request_key r' s.requests sound.requests_distinct);
      executions_distinct =
          rw p (Distinct-put execution_key e' s.executions sound.executions_distinct);
      one_execution =
          rw p (
            replaced-Distinct e.action_execution_id e e' id own s.executions h sound.one_execution);
      agree =
          rw (q, p)
            (replaced-All e.action_execution_id e e' id own (Matches s.requests)
              (Matches (put request_key r' s.requests))
              (λ x n. other-Matches e.action_request_id r' s.requests x kept n)
              (
                r',
                ground
                    (arith, find-put request_key e'.action_request_id r' s.requests, own, kept, g),
                m,
              )
              s.executions h sound.one_execution sound.agree);
    }
