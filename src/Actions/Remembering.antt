-- ===== src/Actions/Remembering.antt =====
-- What `_record_terminal_memory` does to the tables.
use ai_game.Base.{ℕ, ◌≡◌, refl, ap, ◌∙◌, inl, inr, some, arith, key-find, Bool-cases, Option-cases}
use ai_game.Errors.{Result, ok, err, Result-cases}
use ai_game.Actions.Tables.{
  ActionExecution, Store, execution_key, find_request, find_execution, save_execution,
  memory_reconciliation_required,
}
use ai_game.Actions.Executions.{
  start_memory_record_attempt, mark_memory_recorded, mark_memory_record_failed,
}
use ai_game.Actions.Finish.{memory_scope, record_answer, record_terminal_memory, is_recorded}
use ai_game.Actions.Ledger.{put-put}
use ai_game.Actions.Effects.{Effect, idles, notes}
use ai_game.Actions.Calls.{staged_rows}

-- The execution that the record of an end is about.
memory_found :
    (request_id execution_id : ℕ) (s : Store) (e : ActionExecution)
    → memory_scope request_id execution_id s ≡ ok e
    → find_execution execution_id s ≡ some e
unfolding memory_scope
memory_found request_id execution_id s e h = elim (Option-cases (find_execution execution_id s)) [
  | inl f ↦ ground (arith, h, f)
  | inr (e1, f) ↦ elim (Option-cases (find_request request_id s)) [
    | inl g ↦ ground (arith, h, f, g)
    | inr (r, g) ↦ ground (arith, h, f, g)
  ]
]

-- The attempt to record and its answer.
answer-Effect :
    (now request_id execution_id : ℕ) (answer : Result (Unit {0})) (s : Store) (e : ActionExecution)
    → find_execution e.action_execution_id s ≡ some e
    → Effect s (
        record_answer now request_id execution_id answer
          (start_memory_record_attempt e)
          (save_execution (start_memory_record_attempt e) s))
unfolding record_answer start_memory_record_attempt mark_memory_recorded mark_memory_record_failed
answer-Effect now request_id execution_id (ok done) s e f =
    notes e (mark_memory_recorded now (start_memory_record_attempt e)) f refl refl refl refl
      (put-put execution_key _ _ s.executions refl)
answer-Effect now request_id execution_id (err x) s e f =
    let (q, p) = staged_rows (memory_reconciliation_required execution_id request_id x) (
      save_execution (mark_memory_record_failed x (start_memory_record_attempt e))
        (save_execution (start_memory_record_attempt e) s)) in
    notes e (mark_memory_record_failed x (start_memory_record_attempt e)) f refl refl refl q
      (p ∙ put-put execution_key _ _ s.executions refl)

pub record_terminal_memory-Effect :
    (now request_id execution_id : ℕ) (answer : Result (Unit {0})) (s : Store)
    → Effect s (record_terminal_memory now request_id execution_id answer s).1
unfolding record_terminal_memory
record_terminal_memory-Effect now request_id execution_id answer s =
    elim (Result-cases (memory_scope request_id execution_id s)) [
      | inr (e, h) ↦ rw (record_terminal_memory, h) (idles refl refl)
      | inl (e, h) ↦ elim (Bool-cases (is_recorded e.memory_record_status)) [
        | inl y ↦ rw (record_terminal_memory, h, y) (idles refl refl)
        | inr n ↦
            let f = memory_found request_id execution_id s e h in
            rw (record_terminal_memory, h, n)
              (answer-Effect now request_id execution_id answer s e (
                ap (λ i. find_execution i s) (key-find execution_key execution_id s.executions e f)
                ∙ f))
      ]
    ]
