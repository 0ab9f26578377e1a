-- ===== src/Store/Apply.antt =====
-- packages/db/src/repository.ts: `applySnapshot`, one transaction on the rows of an intent.
pub mod Versions
pub mod Announcements
use cell_flow.Prelude.{
  ◌+◌, Bool, not, ◌&&◌, ◌||◌, List, map, Option, none, some, String, if◌then◌else◌, ◌==◌, string_eq,
  option_eq, nat_beq, length, is_some,
}
use cell_flow.Json.{Json, json_beq}
use cell_flow.Core.Status.{
  ConflictType, AttemptDisposition, conflict_eq, disposition_eq, submission_eq, chain_eq,
  workflow_eq,
}
use cell_flow.Core.Types.{ExecutionSnapshot}
use cell_flow.Core.Settlement.{truthy, is_settlement_ready}
use cell_flow.Store.Rows.{
  IntentRecord, ExecutionRecord, TransactionAttemptRecord, IntentAggregate, snapshot_from_execution,
  disposition_for_snapshot, if_given,
}
use cell_flow.Store.Outbox.{Ledger, EventInput, insert_event_and_outbox}

-- The rows of one intent, and the project's ledger.
pub record Rows : Type 0 where
  pub intent : IntentRecord
  pub execution : ExecutionRecord
  pub attempts : List TransactionAttemptRecord
  pub ledger : Ledger

pub record SnapshotEvent : Type 0 where
  pub kind : String
  pub from_status : Option String
  pub to_status : String
  pub reason : Option String
  pub raw_observation : Option Json
  pub occurred_at : String

-- In the last four fields `none` is `undefined`.
pub record ApplyInput : Type 0 where
  pub aggregate : IntentAggregate
  pub snapshot : ExecutionSnapshot
  pub event : SnapshotEvent
  pub next_reconcile_at : Option String
  pub assertion_status : Option (Option String)
  pub assertion_result : Option Json
  pub conflict_type : Option (Option ConflictType)
  pub conflict_details : Option Json

-- The database's clock and the two identifiers that the call may draw.
pub record Draws : Type 0 where
  pub now : String
  pub event_id : String
  pub settlement_event_id : String

-- The transaction's effect and the identifier returned, or `OptimisticConcurrencyError`.
pub data Written : Type 0 where
  written : Rows → Option String → Written
  changed_concurrently : Written

abbrev given_or {ℓ} : {A : Type ℓ} → Option A → A → A
given_or none a = a
given_or (some b) a = b

unfoldable pub next_assertion_status : ApplyInput → Option String
next_assertion_status i = given_or i.assertion_status i.aggregate.execution.assertion_status

unfoldable pub next_conflict_type : ApplyInput → Option ConflictType
next_conflict_type i = given_or i.conflict_type i.aggregate.execution.conflict_type

next_conflict_details : ApplyInput → Json
next_conflict_details i = given_or i.conflict_details i.aggregate.execution.conflict_details

unfoldable pub prior_ready : ApplyInput → Bool
prior_ready i =
    let prior = i.aggregate.execution in
    is_some prior.settlement_ready_at
    && is_settlement_ready (snapshot_from_execution prior) prior.assertion_status
        (length i.aggregate.intent.expected_cells) prior.conflict_type

unfoldable pub next_ready : ApplyInput → Bool
unfolding next_assertion_status next_conflict_type
next_ready i =
    is_settlement_ready i.snapshot (next_assertion_status i)
      (length i.aggregate.intent.expected_cells) (next_conflict_type i)

abbrev pub bool_differs : Bool → Bool → Bool
bool_differs a b = if a then not b else b

settlement_changed : ApplyInput → Bool
settlement_changed i = bool_differs (prior_ready i) (next_ready i)

settlement_time : ApplyInput → Option String
settlement_time i =
    if next_ready i
    then if prior_ready i && truthy i.aggregate.execution.settlement_ready_at
      then i.aggregate.execution.settlement_ready_at
      else some i.event.occurred_at
    else none

unfoldable pub meaningful : ApplyInput → Bool
unfolding next_assertion_status next_conflict_type next_conflict_details
meaningful i =
    let prior = i.aggregate.execution in
    not (prior.submission_status == i.snapshot.submission_status)
    || not (prior.chain_status == i.snapshot.chain_status)
    || not (prior.workflow_status == i.snapshot.workflow_status)
    || not (prior.committed_block_hash == i.snapshot.committed_block_hash)
    || not (prior.committed_block_number == i.snapshot.committed_block_number)
    || not (prior.rejection_reason == i.snapshot.rejection_reason)
    || not (prior.assertion_status == next_assertion_status i)
    || not (prior.conflict_type == next_conflict_type i)
    || not (json_beq prior.conflict_details (next_conflict_details i))

-- The columns that the update sets.
updated_execution : Draws → ApplyInput → ExecutionRecord → ExecutionRecord
unfolding settlement_time next_assertion_status next_conflict_type next_conflict_details
updated_execution d i row =
    let prior = i.aggregate.execution in
    record row {
      submission_status = i.snapshot.submission_status;
      chain_status = i.snapshot.chain_status;
      workflow_status = i.snapshot.workflow_status;
      confirmation_count = i.snapshot.confirmation_count;
      committed_block_hash = i.snapshot.committed_block_hash;
      committed_block_number = i.snapshot.committed_block_number;
      rejection_reason = i.snapshot.rejection_reason;
      assertion_status = next_assertion_status i;
      settlement_ready_at = settlement_time i;
      conflict_type = next_conflict_type i;
      conflict_details = next_conflict_details i;
      assertion_result = given_or i.assertion_result prior.assertion_result;
      last_raw_observation = given_or i.event.raw_observation prior.last_raw_observation;
      last_observed_at =
          if is_some i.event.raw_observation
          then some i.event.occurred_at
          else prior.last_observed_at;
      next_reconcile_at = i.next_reconcile_at;
      reconcile_attempts = row.reconcile_attempts + 1;
      version = row.version + 1;
      updated_at = d.now;
    }

-- The update of the active attempt.
active_update : Draws → ApplyInput → TransactionAttemptRecord → TransactionAttemptRecord
unfolding next_conflict_type next_conflict_details
active_update d i a =
    if some a.id == i.aggregate.intent.active_attempt_id && a.intent_row_id == i.aggregate.intent.id
    then record a {
      submission_status = i.snapshot.submission_status;
      chain_status = i.snapshot.chain_status;
      workflow_status = i.snapshot.workflow_status;
      disposition = disposition_for_snapshot i.snapshot;
      conflict_type = next_conflict_type i;
      conflict_details = next_conflict_details i;
      updated_at = d.now;
    }
    else a

-- The update of the others once the active attempt is confirmed.
supersede_update : Draws → ApplyInput → TransactionAttemptRecord → TransactionAttemptRecord
supersede_update d i a =
    if a.intent_row_id == i.aggregate.intent.id
      && not (some a.id == i.aggregate.intent.active_attempt_id)
      && a.disposition == AttemptDisposition.active
    then record a { disposition = AttemptDisposition.superseded; updated_at = d.now }
    else a

abbrev pub confirms : ApplyInput → Bool
confirms i = disposition_for_snapshot i.snapshot == AttemptDisposition.confirmed

unfoldable pub updated_attempts :
    Draws → ApplyInput → List TransactionAttemptRecord → List TransactionAttemptRecord
unfolding active_update supersede_update
updated_attempts d i attempts =
    let first =
      (if truthy i.aggregate.intent.active_attempt_id
        then map (active_update d i) attempts
        else attempts) in
    if confirms i && truthy i.aggregate.intent.active_attempt_id
    then map (supersede_update d i) first
    else first

updated_intent : Draws → ApplyInput → IntentRecord → IntentRecord
updated_intent d i row = record row {
  updated_at = d.now;
  winning_attempt_id =
      if confirms i
      then i.aggregate.intent.active_attempt_id
      else i.aggregate.intent.winning_attempt_id;
}

snapshot_event : ApplyInput → EventInput
unfolding next_assertion_status next_conflict_type
snapshot_event i = record {
  project_id = i.aggregate.intent.project_id;
  intent_row_id = i.aggregate.intent.id;
  execution_id = i.aggregate.execution.id;
  intent_id = i.aggregate.intent.intent_id;
  tx_hash = i.aggregate.execution.tx_hash;
  kind = i.event.kind;
  from_status = i.event.from_status;
  to_status = i.event.to_status;
  reason = if_given i.event.reason;
  raw_observation = i.event.raw_observation;
  occurred_at = i.event.occurred_at;
  snapshot = i.snapshot;
  assertion_status = next_assertion_status i;
  required_assertion_count = length i.aggregate.intent.expected_cells;
  conflict_type = next_conflict_type i;
}

settlement_event : ApplyInput → EventInput
unfolding snapshot_event
settlement_event i = record (snapshot_event i) {
  kind = if next_ready i then "SETTLEMENT_READY" else "SETTLEMENT_REVOKED";
  reason = some (
      if next_ready i
      then "Canonical confirmation policy and all required expected-Cell assertions verified"
      else "A previous settlement-ready observation is no longer valid; downstream applications must assess compensation");
}

-- Whether the `where` of the update finds the row.
finds : ApplyInput → ExecutionRecord → Bool
finds i row =
    row.id == i.aggregate.execution.id
    && row.project_id == i.aggregate.intent.project_id
    && nat_beq row.version i.aggregate.execution.version

new_ledger : Draws → ApplyInput → Ledger → Ledger
unfolding snapshot_event settlement_event settlement_changed
new_ledger d i l =
    if not (meaningful i) && not (settlement_changed i)
    then l
    else if settlement_changed i
    then insert_event_and_outbox d.settlement_event_id (settlement_event i)
        (insert_event_and_outbox d.event_id (snapshot_event i) l)
    else insert_event_and_outbox d.event_id (snapshot_event i) l

unfoldable pub apply_snapshot : Draws → ApplyInput → Rows → Written
unfolding finds updated_execution updated_intent new_ledger settlement_changed
apply_snapshot d i rows =
    if not (finds i rows.execution)
    then changed_concurrently
    else written
        (record {
          intent = updated_intent d i rows.intent;
          execution = updated_execution d i rows.execution;
          attempts = updated_attempts d i rows.attempts;
          ledger = new_ledger d i rows.ledger;
        })
        (if not (meaningful i) && not (settlement_changed i) then none else some d.event_id)
