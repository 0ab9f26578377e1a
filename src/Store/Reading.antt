-- ===== src/Store/Reading.antt =====
-- packages/db/src/repository.ts: `getIntent` on the rows of an intent.
use cell_flow.Prelude.{
  ◌&&◌, List, [], ◌∷◌, Option, none, some, String, if◌then◌else◌, ◌==◌, string_eq, leb, select,
  find,
}
use cell_flow.Store.Rows.{IntentRecord, TransactionAttemptRecord, IntentAggregate}
use cell_flow.Store.Apply.{Rows}

-- `order by attempt_number asc`.
insert_by_number :
    TransactionAttemptRecord → List TransactionAttemptRecord → List TransactionAttemptRecord
insert_by_number a [] = a ∷ []
insert_by_number a (b ∷ bs) =
    let rest = insert_by_number a bs in
    if leb a.attempt_number b.attempt_number then a ∷ b ∷ bs else b ∷ rest

by_number : List TransactionAttemptRecord → List TransactionAttemptRecord
unfolding insert_by_number
by_number [] = []
by_number (a ∷ as') = insert_by_number a (by_number as')

attempts_of : IntentRecord → List TransactionAttemptRecord → List TransactionAttemptRecord
unfolding by_number
attempts_of i table =
    by_number (select (λ a. a.project_id == i.project_id && a.intent_row_id == i.id) table)

-- `id ? attempts.find(...) ?? null : null`.
attempt_with : Option String → List TransactionAttemptRecord → Option TransactionAttemptRecord
attempt_with none attempts = none
attempt_with (some id) attempts = if id == "" then none else find (λ a. a.id == id) attempts

unfoldable pub get_intent : Rows → IntentAggregate
unfolding attempts_of attempt_with
get_intent rows =
    let attempts = attempts_of rows.intent rows.attempts in
    record {
      intent = rows.intent;
      execution = rows.execution;
      attempts = attempts;
      active_attempt = attempt_with rows.intent.active_attempt_id attempts;
      winning_attempt = attempt_with rows.intent.winning_attempt_id attempts;
    }
