-- ===== src/Store/Apply/Announcements.antt =====
-- The settlement events of the ledger follow the settlement of the execution.
use cell_flow.Prelude.{
  ℕ, ◌≡◌, ◌≢◌, true, false, List, [], ◌∷◌, Option, some, none, String, arith, eq_iff, refl, Bool,
  Bool-cases, inl, inr, if◌then◌else◌, ◌==◌, string_eq, is_some, length, sym, ap, ◌∙◌,
}
use cell_flow.Core.Status.{ConflictType}
use cell_flow.Core.Settlement.{truthy, is_settlement_ready}
use cell_flow.Store.Rows.{ExecutionRecord, if_given, snapshot_from_execution}
use cell_flow.Store.Outbox.{StateEvent, Ledger, EventInput, insert_event_and_outbox}
use cell_flow.Store.Apply.{
  Rows, ApplyInput, Draws, prior_ready, next_ready, settlement_changed, settlement_time,
  updated_execution, new_ledger, snapshot_event, settlement_event, apply_snapshot, updated_intent,
  written, finds, next_assertion_status, next_conflict_type,
}

-- What the ledger, newest event first, last said of the settlement.
unfoldable pub announced : List StateEvent → Bool
announced [] = false
announced (e ∷ es) =
    if e.kind == "SETTLEMENT_READY"
    then true
    else if e.kind == "SETTLEMENT_REVOKED"
    then false
    else announced es

-- The ledger has told of the settlement, and the settlement is earned by the row itself.
pub record IsAnnounced (rows : Rows) : Type 0 where
  pub told : announced rows.ledger.events ≡ is_some rows.execution.settlement_ready_at
  pub earned :
      is_some rows.execution.settlement_ready_at ≡ true
      → is_settlement_ready
          (snapshot_from_execution rows.execution)
          rows.execution.assertion_status
          (length rows.intent.expected_cells)
          rows.execution.conflict_type
        ≡ true

-- The write is made from the rows themselves, under their policy, and tells of something else
-- than the settlement.
pub record IsReadFrom (rows : Rows) (i : ApplyInput) : Type 0 where
  pub same_execution : i.aggregate.execution ≡ rows.execution
  pub same_intent : i.aggregate.intent ≡ rows.intent
  pub same_policy : i.snapshot.confirmation_policy ≡ rows.execution.confirmation_policy
  pub not_ready_kind : i.event.kind ≢ "SETTLEMENT_READY"
  pub not_revoked_kind : i.event.kind ≢ "SETTLEMENT_REVOKED"

pub truthy-if_given : (v : Option String) → truthy (if_given v) ≡ truthy v
truthy-if_given none = refl
truthy-if_given (some s) = ground arith

-- The readiness that the row shows is the readiness of the snapshot that was written.
is_settlement_ready-updated :
    (d : Draws) (i : ApplyInput) (row : ExecutionRecord) (a : Option String) (n : ℕ)
    (c : Option ConflictType)
    → i.snapshot.confirmation_policy ≡ row.confirmation_policy
    → is_settlement_ready (snapshot_from_execution (updated_execution d i row)) a n c
      ≡ is_settlement_ready i.snapshot a n c
unfolding is_settlement_ready snapshot_from_execution updated_execution
is_settlement_ready-updated d i row a n c p = rw (
  truthy-if_given i.snapshot.committed_block_hash,
  truthy-if_given i.snapshot.committed_block_number,
  p,
)

settlement_time_lem : (i : ApplyInput) → is_some (settlement_time i) ≡ next_ready i
unfolding settlement_time
settlement_time_lem i = ground arith

prior_ready_lem :
    (rows : Rows) (i : ApplyInput)
    → IsAnnounced rows
    → IsReadFrom rows i
    → prior_ready i ≡ is_some rows.execution.settlement_ready_at
unfolding prior_ready
prior_ready_lem rows i v r =
    rw (r.same_execution, r.same_intent)
      (elim (Bool-cases (is_some rows.execution.settlement_ready_at)) [
        | inl y ↦ rw (y, v.earned y) refl
        | inr n ↦ rw n refl
      ])

pub announced-insert :
    (id : String) (e : EventInput) (l : Ledger)
    → e.kind ≢ "SETTLEMENT_READY"
    → e.kind ≢ "SETTLEMENT_REVOKED"
    → announced (insert_event_and_outbox id e l).events ≡ announced l.events
unfolding announced insert_event_and_outbox
announced-insert id e l p q =
    ground (arith, eq_iff e.kind "SETTLEMENT_READY", eq_iff e.kind "SETTLEMENT_REVOKED")

announced-settlement :
    (id : String) (i : ApplyInput) (l : Ledger)
    → announced (insert_event_and_outbox id (settlement_event i) l).events ≡ next_ready i
unfolding announced insert_event_and_outbox settlement_event
announced-settlement id i l = elim (Bool-cases (next_ready i)) [
  | inl y ↦ rw y refl
  | inr n ↦ rw n refl
]

new_ledger-announced :
    (d : Draws) (i : ApplyInput) (l : Ledger)
    → i.event.kind ≢ "SETTLEMENT_READY"
    → i.event.kind ≢ "SETTLEMENT_REVOKED"
    → announced l.events ≡ prior_ready i
    → announced (new_ledger d i l).events ≡ next_ready i
unfolding new_ledger settlement_changed snapshot_event
new_ledger-announced d i l p q t = ground (
  arith,
  announced-insert d.event_id (snapshot_event i) l p q,
  announced-settlement d.settlement_event_id i
      (insert_event_and_outbox d.event_id (snapshot_event i) l),
)

-- What a write leaves in the rows.
written_parts :
    (d : Draws) (i : ApplyInput) (rows after : Rows) (e : Option String)
    → apply_snapshot d i rows ≡ written after e
    → (after.execution ≡ updated_execution d i rows.execution)
      × (after.ledger ≡ new_ledger d i rows.ledger)
      × (after.intent ≡ updated_intent d i rows.intent)
unfolding apply_snapshot
written_parts d i rows after e h = elim (Bool-cases (finds i rows.execution)) [
  | inl f ↦ (ground arith, ground arith, ground arith)
  | inr n ↦ cc (rw n at h)
]

-- The update leaves the hash of the transaction.
pub apply_snapshot-tx_hash :
    (d : Draws) (i : ApplyInput) (rows after : Rows) (e : Option String)
    → apply_snapshot d i rows ≡ written after e
    → after.execution.tx_hash ≡ rows.execution.tx_hash
unfolding updated_execution
apply_snapshot-tx_hash d i rows after e h =
    ap (λ (x : ExecutionRecord). x.tx_hash) (written_parts d i rows after e h).0

updated_parts :
    (d : Draws) (i : ApplyInput) (rows : Rows)
    → (is_some (updated_execution d i rows.execution).settlement_ready_at ≡ next_ready i)
      × ((updated_execution d i rows.execution).assertion_status ≡ next_assertion_status i)
      × ((updated_execution d i rows.execution).conflict_type ≡ next_conflict_type i)
      × ((updated_intent d i rows.intent).expected_cells ≡ rows.intent.expected_cells)
unfolding updated_execution updated_intent
updated_parts d i rows = (settlement_time_lem i, refl, refl, refl)

next_ready_lem :
    (d : Draws) (i : ApplyInput) (rows : Rows)
    → IsReadFrom rows i
    → is_settlement_ready
        (snapshot_from_execution (updated_execution d i rows.execution))
        (updated_execution d i rows.execution).assertion_status
        (length (updated_intent d i rows.intent).expected_cells)
        (updated_execution d i rows.execution).conflict_type
      ≡ next_ready i
unfolding next_ready updated_execution
next_ready_lem d i rows r =
    let (_, a, c, n) = updated_parts d i rows in
    rw (a, c, n, sym r.same_intent)
      (is_settlement_ready-updated d i rows.execution (next_assertion_status i)
        (length i.aggregate.intent.expected_cells) (next_conflict_type i) r.same_policy)

-- A write keeps the ledger and the settlement together.
pub apply_snapshot-IsAnnounced :
    (d : Draws) (i : ApplyInput) (rows after : Rows) (e : Option String)
    → IsAnnounced rows
    → IsReadFrom rows i
    → apply_snapshot d i rows ≡ written after e
    → IsAnnounced after
apply_snapshot-IsAnnounced d i rows after e v r h =
    let (execution, ledger, intent) = written_parts d i rows after e h in
    let (settled, _, _, _) = updated_parts d i rows in
    record {
      told =
          rw (execution, ledger)
            (new_ledger-announced d i rows.ledger r.not_ready_kind r.not_revoked_kind
                (v.told ∙ sym (prior_ready_lem rows i v r))
              ∙ sym settled);
      earned = λ q.
          rw (execution, intent)
            (next_ready_lem d i rows r
              ∙ sym settled
              ∙ ap (λ (x : ExecutionRecord). is_some x.settlement_ready_at) (sym execution)
              ∙ q);
    }

-- Any number of writes, each made from the rows as they then were.
pub data Writes (rows : Rows) : Rows → Type 0 where
  none_yet : Writes rows rows
  then_write :
      {before : Rows} {after : Rows} (d : Draws) (i : ApplyInput) (e : Option String)
      → Writes rows before
      → IsReadFrom before i
      → apply_snapshot d i before ≡ written after e
      → Writes rows after

-- Over any number of writes made from current rows, the last settlement event of the ledger says
-- SETTLEMENT_READY exactly while the execution is marked as settled, and a marked execution is
-- ready for settlement by its own columns, if this held at the start.
pub Writes-IsAnnounced :
    {rows : Rows} {after : Rows} → Writes rows after → IsAnnounced rows → IsAnnounced after
Writes-IsAnnounced none_yet v = v
Writes-IsAnnounced {rows} {after} (then_write {before} d i e w r h) v =
    apply_snapshot-IsAnnounced d i before after e (Writes-IsAnnounced w v) r h
