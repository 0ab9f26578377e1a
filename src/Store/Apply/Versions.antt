-- ===== src/Store/Apply/Versions.antt =====
-- Of the writers that read one version of an execution, one writes; and no change of the status
-- goes without an event.
use cell_flow.Core.Settlement.{derive_overall_status}
use cell_flow.Store.Outbox.{StateEvent, insert_event_and_outbox}
use cell_flow.Prelude.{
  ◌≡◌, ◌≢◌, true, false, Option, String, arith, refl, Bool-cases, inl, inr, ◌+◌, option_eq,
  string_eq, Any, here, there, some,
}
use cell_flow.Store.Rows.{ExecutionRecord, snapshot_from_execution}
use cell_flow.Store.Apply.{
  Rows, ApplyInput, Draws, written, changed_concurrently, finds, updated_execution, new_ledger,
  apply_snapshot, meaningful, snapshot_event, settlement_changed,
}

written-finds :
    (d : Draws) (i : ApplyInput) (rows after : Rows) (e : Option String)
    → apply_snapshot d i rows ≡ written after e
    → (finds i rows.execution ≡ true)
      × (after.execution ≡ updated_execution d i rows.execution)
      × (after.ledger ≡ new_ledger d i rows.ledger)
unfolding apply_snapshot
written-finds d i rows after e h = elim (Bool-cases (finds i rows.execution)) [
  | inl f ↦ (f, ground arith, ground arith)
  | inr n ↦ cc (rw n at h)
]

finds-version :
    (i : ApplyInput) (row : ExecutionRecord)
    → finds i row ≡ true
    → row.version ≡ i.aggregate.execution.version
unfolding finds
finds-version i row h = ground arith

updated-version :
    (d : Draws) (i : ApplyInput) (row : ExecutionRecord)
    → (updated_execution d i row).version ≡ row.version + 1
unfolding updated_execution
updated-version d i row = refl

-- A write raises the version.
pub apply_snapshot-version :
    (d : Draws) (i : ApplyInput) (rows after : Rows) (e : Option String)
    → apply_snapshot d i rows ≡ written after e
    → after.execution.version ≡ rows.execution.version + 1
apply_snapshot-version d i rows after e h =
    let (_, now, _) = written-finds d i rows after e h in
    rw now (updated-version d i rows.execution)

stale-finds :
    (i : ApplyInput) (row : ExecutionRecord)
    → row.version ≢ i.aggregate.execution.version
    → finds i row ≡ false
unfolding finds
stale-finds i row n = ground arith

not_found :
    (d : Draws) (i : ApplyInput) (rows : Rows)
    → finds i rows.execution ≡ false
    → apply_snapshot d i rows ≡ changed_concurrently
unfolding apply_snapshot
not_found d i rows h = rw h

-- A write from another version than the row's is refused.
pub apply_snapshot-stale :
    (d : Draws) (i : ApplyInput) (rows : Rows)
    → rows.execution.version ≢ i.aggregate.execution.version
    → apply_snapshot d i rows ≡ changed_concurrently
apply_snapshot-stale d i rows n = not_found d i rows (stale-finds i rows.execution n)

-- After one writer has written, every other writer that read the same version of the execution
-- is refused.
pub one_writer :
    (d k : Draws) (i j : ApplyInput) (rows after : Rows) (e : Option String)
    → apply_snapshot d i rows ≡ written after e
    → j.aggregate.execution.version ≡ i.aggregate.execution.version
    → apply_snapshot k j after ≡ changed_concurrently
one_writer d k i j rows after e h same =
    let (found, now, _) = written-finds d i rows after e h in
    let before = finds-version i rows.execution found in
    let next = updated-version d i rows.execution in
    not_found k j after
      (stale-finds j after.execution (λ q. absurd (omega (arith, rw now at q, before, next, same))))

-- An event of the call with the status that it gives.
abbrev pub Records : Draws → ApplyInput → StateEvent → Type 0
Records d i e = (e.id ≡ d.event_id) × (e.kind ≡ i.event.kind) × (e.to_status ≡ i.event.to_status)

status-meaningful :
    (i : ApplyInput)
    → derive_overall_status (snapshot_from_execution i.aggregate.execution)
      ≢ derive_overall_status i.snapshot
    → meaningful i ≡ true
unfolding meaningful derive_overall_status snapshot_from_execution
status-meaningful i n = ground arith

new_ledger-Records :
    (d : Draws) (i : ApplyInput) (rows : Rows)
    → meaningful i ≡ true
    → Any (Records d i) (new_ledger d i rows.ledger).events
unfolding new_ledger snapshot_event insert_event_and_outbox
new_ledger-Records d i rows m = elim (Bool-cases (settlement_changed i)) [
  | inl c ↦ rw (m, c) (there (here (refl, refl, refl)))
  | inr n ↦ rw (m, n) (here (refl, refl, refl))
]

written-event :
    (d : Draws) (i : ApplyInput) (rows after : Rows) (e : Option String)
    → meaningful i ≡ true
    → apply_snapshot d i rows ≡ written after e
    → e ≡ some d.event_id
unfolding apply_snapshot
written-event d i rows after e m h = elim (Bool-cases (finds i rows.execution)) [
  | inl f ↦ ground arith
  | inr n ↦ cc (rw n at h)
]

-- A write that changes the overall status returns the identifier of its event, and the ledger has
-- that event with the status that the caller gave.
pub change_recorded :
    (d : Draws) (i : ApplyInput) (rows after : Rows) (e : Option String)
    → apply_snapshot d i rows ≡ written after e
    → derive_overall_status (snapshot_from_execution i.aggregate.execution)
      ≢ derive_overall_status i.snapshot
    → (e ≡ some d.event_id) × Any (Records d i) after.ledger.events
change_recorded d i rows after e h n =
    let m = status-meaningful i n in
    let (_, _, ledger) = written-finds d i rows after e h in
    (written-event d i rows after e m h, rw ledger (new_ledger-Records d i rows m))
