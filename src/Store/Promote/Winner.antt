-- ===== src/Store/Promote/Winner.antt =====
-- What a confirmed promotion decides between the candidates of an intent.
use cell_flow.Prelude.{
  ◌≡◌, ◌≢◌, true, some, String, arith, refl, eq_iff, string_eq, List, [], ◌∷◌, map, All,
}
use cell_flow.Core.Status.{AttemptDisposition, disposition_eq}
use cell_flow.Store.Rows.{TransactionAttemptRecord, disposition_for_snapshot}
use cell_flow.Store.Apply.{Rows}
use cell_flow.Store.Errors.{stored}
use cell_flow.Store.Promote.{
  PromoteInput, PromoteDraws, candidate_of, is_winning, promoted_attempt, beaten_attempt,
  promoted_attempts, promoted_rows, promoted_intent, promote_attempt_projection,
}

-- An attempt of the intent other than the winner is not ACTIVE.
abbrev pub HasLost : String → String → TransactionAttemptRecord → Type 0
HasLost intent winner b =
    b.intent_row_id ≡ intent → b.id ≢ winner → b.disposition ≢ AttemptDisposition.active

beaten_attempt-HasLost :
    (d : PromoteDraws) (i : PromoteInput) (a b : TransactionAttemptRecord)
    → HasLost i.aggregate.intent.id a.id (beaten_attempt d i a b)
unfolding beaten_attempt
beaten_attempt-HasLost d i a b p q r =
    ground (arith, eq_iff b.intent_row_id i.aggregate.intent.id, eq_iff b.id a.id)

map_beaten :
    (d : PromoteDraws) (i : PromoteInput) (a : TransactionAttemptRecord)
    (table : List TransactionAttemptRecord)
    → All (HasLost i.aggregate.intent.id a.id) (map (beaten_attempt d i a) table)
map_beaten d i a [] = tt
map_beaten d i a (b ∷ table) = (beaten_attempt-HasLost d i a b, map_beaten d i a table)

winning_attempts :
    (d : PromoteDraws) (i : PromoteInput) (a : TransactionAttemptRecord)
    (table : List TransactionAttemptRecord)
    → is_winning i ≡ true
    → All (HasLost i.aggregate.intent.id a.id) (promoted_attempts d i a table)
unfolding promoted_attempts
winning_attempts d i a table w = rw w (map_beaten d i a (map (promoted_attempt d i a) table))

promotion_written :
    (d : PromoteDraws) (i : PromoteInput) (a : TransactionAttemptRecord) (before after : Rows)
    → candidate_of i ≡ some a
    → promote_attempt_projection d i before ≡ stored after
    → after ≡ promoted_rows d i a before
unfolding promote_attempt_projection
promotion_written d i a before after c h = ground arith

winning_rows :
    (d : PromoteDraws) (i : PromoteInput) (a : TransactionAttemptRecord) (before : Rows)
    → is_winning i ≡ true
    → ((promoted_rows d i a before).intent.winning_attempt_id ≡ some a.id)
      × ((promoted_rows d i a before).intent.active_attempt_id ≡ some a.id)
      × ((promoted_rows d i a before).attempts ≡ promoted_attempts d i a before.attempts)
unfolding promoted_rows promoted_intent
winning_rows d i a before w = rw w (refl, refl, refl)

-- The promotion of a candidate with a confirmed snapshot decides the contest: the candidate becomes
-- both the active and the winning attempt of the intent, and no other attempt of the intent is
-- ACTIVE any longer.
pub promotion_decides :
    (d : PromoteDraws) (i : PromoteInput) (a : TransactionAttemptRecord) (before after : Rows)
    → candidate_of i ≡ some a
    → disposition_for_snapshot i.snapshot ≡ AttemptDisposition.confirmed
    → promote_attempt_projection d i before ≡ stored after
    → (after.intent.winning_attempt_id ≡ some a.id)
      × (after.intent.active_attempt_id ≡ some a.id)
      × All (HasLost i.aggregate.intent.id a.id) after.attempts
promotion_decides d i a before after c confirmed h =
    let w : is_winning i ≡ true = rw confirmed refl in
    let (winner, active, attempts) = winning_rows d i a before w in
    rw (promotion_written d i a before after c h)
      (winner, active, rw attempts (winning_attempts d i a before.attempts w))
