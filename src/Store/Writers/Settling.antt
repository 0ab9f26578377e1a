-- ===== src/Store/Writers/Settling.antt =====
-- What a submission report and the promotion of a candidate do to the settlement.
use cell_flow.Core.Status.{ConflictType}
use cell_flow.Prelude.{
  ◌≡◌, ◌≢◌, ◌⊎◌, inl, inr, some, none, arith, refl, sym, ap, ◌∙◌, is_some, Bool-cases, eq_iff,
  string_eq, option_eq, true, false,
}
use cell_flow.Core.Settlement.{truthy, is_settlement_ready}
use cell_flow.Store.Rows.{TransactionAttemptRecord, snapshot_from_execution}
use cell_flow.Store.Outbox.{insert_event_and_outbox, Ledger}
use cell_flow.Store.Apply.{Rows}
use cell_flow.Store.Apply.Announcements.{announced, announced-insert, truthy-if_given}
use cell_flow.Store.Errors.{stored}
use cell_flow.Store.Submit.{
  MarkInput, MarkDraws, mark_submission_status, marked_rows, marked_execution, marked_event,
}
use cell_flow.Store.Promote.{
  PromoteInput, PromoteDraws, candidate_of, promote_attempt_projection, promoted_rows,
  promoted_ready, old_settlement_ready, promoted_ledger, promoted_event, promotion_event,
  promoted_execution, promoted_intent,
}
use cell_flow.Store.Writers.Accounts.{IsAccounted, ready_of, kept-IsAccounted, settled-IsAccounted}

marked_parts :
    (d : MarkDraws) (i : MarkInput) (before after : Rows)
    → mark_submission_status d i before ≡ stored after
    → after ≡ marked_rows d i before
unfolding mark_submission_status
marked_parts d i before after h = ground arith

marked_told :
    (d : MarkDraws) (i : MarkInput) (before : Rows)
    → announced (marked_rows d i before).ledger.events ≡ announced before.ledger.events
unfolding marked_rows marked_event
marked_told d i before =
    announced-insert d.event_id (marked_event d i) before.ledger
      (ground (arith, eq_iff "SUBMISSION_UPDATED" "SETTLEMENT_READY"))
      (ground (arith, eq_iff "SUBMISSION_UPDATED" "SETTLEMENT_REVOKED"))

marked_kept :
    (d : MarkDraws) (i : MarkInput) (before : Rows)
    → i.aggregate.execution ≡ before.execution
    → i.conflict_type ≡ none
    → ready_of (marked_rows d i before) ≡ ready_of before
unfolding marked_rows marked_execution is_settlement_ready snapshot_from_execution
marked_kept d i before same c = rw (c, same)

pub mark_submission_status-IsAccounted :
    (d : MarkDraws) (i : MarkInput) (before after : Rows)
    → IsAccounted before
    → i.aggregate.execution ≡ before.execution
    → (i.conflict_type ≡ none) ⊎ (before.execution.settlement_ready_at ≡ none)
    → mark_submission_status d i before ≡ stored after
    → IsAccounted after
unfolding marked_rows marked_execution
mark_submission_status-IsAccounted d i before after v same calm h =
    rw (marked_parts d i before after h) (
      kept-IsAccounted before (marked_rows d i before) v (marked_told d i before) refl
        (λ q. elim calm [ inl c ↦ marked_kept d i before same c | inr n ↦ cc (ap is_some n) ]) refl)

promoted_parts :
    (d : PromoteDraws) (i : PromoteInput) (a : TransactionAttemptRecord) (before after : Rows)
    → candidate_of i ≡ some a
    → promote_attempt_projection d i before ≡ stored after
    → after ≡ promoted_rows d i a before
unfolding promote_attempt_projection
promoted_parts d i a before after c h = ground arith

-- The promotion takes the settlement of the aggregate for that of the rows.
old_ready_lem :
    (i : PromoteInput) (before : Rows)
    → IsAccounted before
    → i.aggregate.execution ≡ before.execution
    → i.aggregate.intent ≡ before.intent
    → old_settlement_ready i ≡ is_some before.execution.settlement_ready_at
unfolding old_settlement_ready
old_ready_lem i before v e n =
    rw (e, n)
      (elim (Bool-cases (is_some before.execution.settlement_ready_at)) [
        | inl y ↦ rw (y, v.announced.earned y) refl
        | inr no_mark ↦ rw no_mark refl
      ])

announced-promotion :
    (d : PromoteDraws) (i : PromoteInput) (a : TransactionAttemptRecord) (l : Ledger)
    → announced (insert_event_and_outbox d.settlement_event_id (promotion_event d i a) l).events
      ≡ promoted_ready i a
unfolding announced insert_event_and_outbox promotion_event
announced-promotion d i a l = elim (Bool-cases (promoted_ready i a)) [
  | inl y ↦ rw y refl
  | inr n ↦ rw n refl
]

announced-promoted :
    (d : PromoteDraws) (i : PromoteInput) (a : TransactionAttemptRecord) (l : Ledger)
    → i.event_kind ≢ "SETTLEMENT_READY"
    → i.event_kind ≢ "SETTLEMENT_REVOKED"
    → announced (insert_event_and_outbox d.event_id (promoted_event d i a) l).events
      ≡ announced l.events
unfolding promoted_event
announced-promoted d i a l p q = announced-insert d.event_id (promoted_event d i a) l p q

promoted_told :
    (d : PromoteDraws) (i : PromoteInput) (a : TransactionAttemptRecord) (l : Ledger)
    → i.event_kind ≢ "SETTLEMENT_READY"
    → i.event_kind ≢ "SETTLEMENT_REVOKED"
    → announced l.events ≡ old_settlement_ready i
    → announced (promoted_ledger d i a l).events ≡ promoted_ready i a
unfolding promoted_ledger
promoted_told d i a l p q t = ground (
  arith,
  announced-promoted d i a l p q,
  announced-promotion d i a (insert_event_and_outbox d.event_id (promoted_event d i a) l),
)

promoted_ready_lem :
    (d : PromoteDraws) (i : PromoteInput) (a : TransactionAttemptRecord) (before : Rows)
    → i.aggregate.intent ≡ before.intent
    → i.snapshot.confirmation_policy ≡ before.execution.confirmation_policy
    → ready_of (promoted_rows d i a before) ≡ promoted_ready i a
unfolding promoted_rows promoted_execution promoted_intent promoted_ready is_settlement_ready
    snapshot_from_execution
promoted_ready_lem d i a before n p = rw (
  truthy-if_given i.snapshot.committed_block_hash,
  truthy-if_given i.snapshot.committed_block_number,
  sym p,
  sym n,
)

promoted_mark :
    (d : PromoteDraws) (i : PromoteInput) (a : TransactionAttemptRecord) (before : Rows)
    → (is_some (promoted_rows d i a before).execution.settlement_ready_at ≡ promoted_ready i a)
      × ((promoted_rows d i a before).execution.tx_hash ≡ some a.tx_hash)
      × ((promoted_rows d i a before).ledger ≡ promoted_ledger d i a before.ledger)
unfolding promoted_rows promoted_execution
promoted_mark d i a before = (ground arith, refl, refl)

pub promote_attempt_projection-IsAccounted :
    (d : PromoteDraws) (i : PromoteInput) (a : TransactionAttemptRecord) (before after : Rows)
    → IsAccounted before
    → i.aggregate.execution ≡ before.execution
    → i.aggregate.intent ≡ before.intent
    → candidate_of i ≡ some a
    → a.tx_hash ≢ ""
    → i.snapshot.confirmation_policy ≡ before.execution.confirmation_policy
    → i.event_kind ≢ "SETTLEMENT_READY"
    → i.event_kind ≢ "SETTLEMENT_REVOKED"
    → promote_attempt_projection d i before ≡ stored after
    → IsAccounted after
promote_attempt_projection-IsAccounted d i a before after v e n c t p k l h =
    let (marked, hash, ledger) = promoted_mark d i a before in
    let told =
      promoted_told d i a before.ledger k l
        (v.announced.told ∙ sym (old_ready_lem i before v e n)) in
    rw (promoted_parts d i a before after c h) (
      settled-IsAccounted (promoted_rows d i a before) (promoted_ready i a)
        (ap (λ (x : Ledger). announced x.events) ledger ∙ told) marked
        (promoted_ready_lem d i a before n p)
        (λ q. ap truthy hash ∙ ground (arith, eq_iff a.tx_hash "")))

-- A report of a conflict that reaches a settled execution leaves it marked as settled, and the
-- ledger goes on to announce SETTLEMENT_READY, while by its own columns the execution is no longer
-- ready for settlement.
pub late_conflict_unannounced :
    (d : MarkDraws) (i : MarkInput) (before after : Rows) (c : ConflictType)
    → IsAccounted before
    → is_some before.execution.settlement_ready_at ≡ true
    → i.conflict_type ≡ some c
    → mark_submission_status d i before ≡ stored after
    → (is_some after.execution.settlement_ready_at ≡ true)
      × (announced after.ledger.events ≡ true)
      × (ready_of after ≡ false)
unfolding marked_rows marked_execution is_settlement_ready snapshot_from_execution
late_conflict_unannounced d i before after c v q k h =
    rw (marked_parts d i before after h)
      (q, marked_told d i before ∙ v.announced.told ∙ q, ground arith)
