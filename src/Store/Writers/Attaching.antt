-- ===== src/Store/Writers/Attaching.antt =====
-- What attaching a transaction does to the settlement.
use cell_flow.Prelude.{
  ℕ, ◌≡◌, inl, inr, true, false, some, none, arith, refl, sym, ap, ◌∙◌, is_some, length, Bool-cases,
  eq_iff, string_eq, option_eq, not, option_beq_iff,
}
use cell_flow.Core.Settlement.{truthy, is_settlement_ready}
use cell_flow.Store.Rows.{ExecutionRecord, snapshot_from_execution, same_version}
use cell_flow.Store.Outbox.{insert_event_and_outbox, Ledger}
use cell_flow.Store.Apply.{Rows}
use cell_flow.Store.Apply.Announcements.{announced, IsAnnounced, announced-insert}
use cell_flow.Store.Errors.{stored, StoreError, refuse_if, >>=-eq-stored}
use cell_flow.Store.Attach.{AttachInput, creating, is_finalized, check_replacement, same_hash}
use cell_flow.Store.Attach.Transaction.{Tables, AttachDraws, Attachment, attach_attempt}
use cell_flow.Store.Attach.Write.{
  attach_transaction, attached_tables, attached_execution, attached_event, attached_intent,
}
use cell_flow.Store.Writers.Accounts.{IsAccounted, kept-IsAccounted, cleared-IsAccounted}

-- A settled execution is confirmed.
settled_finalized :
    (rows : Rows)
    → IsAnnounced rows
    → is_some rows.execution.settlement_ready_at ≡ true
    → is_finalized rows.execution ≡ true
unfolding is_settlement_ready snapshot_from_execution is_finalized
settled_finalized rows v h = ground (arith, v.earned h)

-- A replacement is refused while the execution is finalized.
replaced_open :
    (i : AttachInput)
    → check_replacement i ≡ stored tt
    → creating i ≡ true
    → truthy i.aggregate.execution.tx_hash ≡ true
    → is_finalized i.aggregate.execution ≡ false
unfolding check_replacement
replaced_open i h c t = ground arith

attached_parts :
    (d : AttachDraws) (i : AttachInput) (before after : Tables)
    → attach_transaction d i before ≡ stored after
    → (t : Attachment) × (check_replacement i ≡ stored tt) × (after ≡ attached_tables d i t before)
unfolding attach_transaction
attached_parts d i before after h =
    let (checked, c, h1) = >>=-eq-stored (check_replacement i) _ h in
    let (t, _, h2) = >>=-eq-stored (attach_attempt d i before.rows.attempts) _ h1 in
    let (found, _, h3) =
      >>=-eq-stored
        (refuse_if (not (same_version i.aggregate before.rows.execution)) StoreError.changed) _
        h2 in
    (t, c, cc h3)

-- An execution whose transaction is replaced is not settled.
replaced_unsettled :
    (i : AttachInput) (rows : Rows)
    → IsAccounted rows
    → i.aggregate.execution ≡ rows.execution
    → check_replacement i ≡ stored tt
    → creating i ≡ true
    → is_some rows.execution.settlement_ready_at ≡ false
replaced_unsettled i rows v e k c = elim (Bool-cases (is_some rows.execution.settlement_ready_at)) [
  | inr n ↦ n
  | inl y ↦
      let t = replaced_open i k c (ap (λ (x : ExecutionRecord). truthy x.tx_hash) e ∙ v.hashed y) in
      cc (settled_finalized rows v.announced y, ap is_finalized e, t)
]

attached_kind :
    (d : AttachDraws) (i : AttachInput) (t : Attachment) (l : Ledger)
    → announced (insert_event_and_outbox d.event_id (attached_event d i t) l).events
      ≡ announced l.events
unfolding attached_event
attached_kind d i t l =
    announced-insert d.event_id (attached_event d i t) l
      (ground (
        arith,
        eq_iff "TRANSACTION_ATTEMPT_CREATED" "SETTLEMENT_READY",
        eq_iff "SUBMISSION_UPDATED" "SETTLEMENT_READY",
      ))
      (ground (
        arith,
        eq_iff "TRANSACTION_ATTEMPT_CREATED" "SETTLEMENT_REVOKED",
        eq_iff "SUBMISSION_UPDATED" "SETTLEMENT_REVOKED",
      ))

-- What a new submission status leaves of the readiness.
same_ready :
    (e f : ExecutionRecord) (n : ℕ)
    → f.workflow_status ≡ e.workflow_status
    → f.chain_status ≡ e.chain_status
    → f.confirmation_policy ≡ e.confirmation_policy
    → f.confirmation_count ≡ e.confirmation_count
    → f.committed_block_hash ≡ e.committed_block_hash
    → f.committed_block_number ≡ e.committed_block_number
    → f.assertion_status ≡ e.assertion_status
    → f.conflict_type ≡ e.conflict_type
    → is_settlement_ready (snapshot_from_execution f) f.assertion_status n f.conflict_type
      ≡ is_settlement_ready (snapshot_from_execution e) e.assertion_status n e.conflict_type
unfolding is_settlement_ready snapshot_from_execution
same_ready e f n a b c d g h k l = rw (a, b, c, d, g, h, k, l)

attached_created :
    (d : AttachDraws) (i : AttachInput) (t : Attachment) (before : Tables)
    → creating i ≡ true
    → (attached_tables d i t before).rows.execution.settlement_ready_at ≡ none
unfolding attached_tables attached_execution
attached_created d i t before c = ground arith

attached_kept :
    (d : AttachDraws) (i : AttachInput) (row : ExecutionRecord) (n : ℕ)
    → creating i ≡ false
    → (is_settlement_ready
          (snapshot_from_execution (attached_execution d i row))
          (attached_execution d i row).assertion_status
          n
          (attached_execution d i row).conflict_type
        ≡ is_settlement_ready
            (snapshot_from_execution row)
            row.assertion_status
            n
            row.conflict_type)
      × ((attached_execution d i row).settlement_ready_at ≡ row.settlement_ready_at)
      × ((attached_execution d i row).tx_hash ≡ some i.tx_hash)
unfolding attached_execution is_settlement_ready snapshot_from_execution
attached_kept d i row n c = rw c (refl, refl, refl)

attached_told :
    (d : AttachDraws) (i : AttachInput) (t : Attachment) (before : Tables)
    → announced (attached_tables d i t before).rows.ledger.events
      ≡ announced before.rows.ledger.events
unfolding attached_tables
attached_told d i t before = attached_kind d i t before.rows.ledger

attached_cells :
    (d : AttachDraws) (i : AttachInput) (t : Attachment) (before : Tables)
    → ((attached_tables d i t before).rows.intent.expected_cells
        ≡ before.rows.intent.expected_cells)
      × ((attached_tables d i t before).rows.execution
          ≡ attached_execution d i before.rows.execution)
unfolding attached_tables attached_intent
attached_cells d i t before = (refl, refl)

kept_hash :
    (i : AttachInput) (row : ExecutionRecord)
    → i.aggregate.execution ≡ row
    → creating i ≡ false
    → row.tx_hash ≡ some i.tx_hash
unfolding creating same_hash
kept_hash i row e c =
    ap (λ (x : ExecutionRecord). x.tx_hash) (sym e)
    ∙ (option_beq_iff string_eq.beq string_eq.beq_iff i.aggregate.execution.tx_hash
          (some i.tx_hash)).0
        (ground arith)

pub attach_transaction-IsAccounted :
    (d : AttachDraws) (i : AttachInput) (before after : Tables)
    → IsAccounted before.rows
    → i.aggregate.execution ≡ before.rows.execution
    → attach_transaction d i before ≡ stored after
    → IsAccounted after.rows
unfolding attached_tables attached_intent
attach_transaction-IsAccounted d i before after v same h =
    let (t, checked, e) = attached_parts d i before after h in
    let told = attached_told d i t before in
    elim (Bool-cases (creating i)) [
      | inl c ↦
          let u = replaced_unsettled i before.rows v same checked c in
          rw e (
            cleared-IsAccounted (attached_tables d i t before).rows (told ∙ v.announced.told ∙ u)
              (attached_created d i t before c))
      | inr c ↦
          let (ready, marked, hash) =
            attached_kept d i before.rows.execution (length before.rows.intent.expected_cells) c in
          rw e (
            kept-IsAccounted before.rows (attached_tables d i t before).rows v told marked
              (λ q. ready) (ap truthy (hash ∙ sym (kept_hash i before.rows.execution same c))))
    ]
