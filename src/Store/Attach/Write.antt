-- ===== src/Store/Attach/Write.antt =====
-- packages/db/src/repository.ts: what the transaction of `attachTransaction` writes once it has its
-- attempt, and the whole of `attachTransaction`.
use cell_flow.Prelude.{
  ℕ, ◌+◌, not, ◌&&◌, List, [], ◌∷◌, ◌++◌, none, some, String, if◌then◌else◌, ◌==◌, string_eq, any,
  max, length, nat_beq,
}
use cell_flow.Prelude.Letters.{lower_text}
use cell_flow.Json.{Json}
use cell_flow.Core.Status.{ChainStatus, WorkflowStatus}
use cell_flow.Core.Types.{ExecutionSnapshot}
use cell_flow.Core.Settlement.{truthy}
use cell_flow.Store.Rows.{IntentRecord, ExecutionRecord, if_given, same_version}
use cell_flow.Store.Outbox.{EventInput, insert_event_and_outbox}
use cell_flow.Store.Errors.{StoreError, Stored, stored, refuse_if, ◌>>=◌, ◌>>◌}
use cell_flow.Store.Attach.{
  AttachInput, creating, persisted_inputs, persisted_input_refs, check_replacement,
}
use cell_flow.Store.Attach.Transaction.{
  RevisionKind, Revision, Tables, AttachDraws, Attachment, attach_attempt,
}

max_revision : String → List Revision → ℕ
max_revision attempt [] = 0
max_revision attempt (r ∷ rs) =
    let rest = max_revision attempt rs in
    if r.attempt_id == attempt then max r.revision_number rest else rest

revision_kind_of : AttachInput → ℕ → RevisionKind
revision_kind_of i number =
    if nat_beq number 1
    then RevisionKind.initial
    else if i.allow_signed_payload_revision
    then RevisionKind.cosignature
    else RevisionKind.manual_replacement

add_revision : AttachInput → String → String → List Revision → List Revision
unfolding max_revision revision_kind_of
add_revision i attempt hash rs =
    if any (λ r. r.attempt_id == attempt && r.payload_hash_sha256 == lower_text hash) rs
    then rs
    else rs
      ++ record {
        attempt_id = attempt;
        revision_number = max_revision attempt rs + 1;
        payload_hash_sha256 = lower_text hash;
        revision_kind = revision_kind_of i (max_revision attempt rs + 1);
      }
        ∷ []

unfoldable pub record_revision : AttachInput → String → List Revision → List Revision
unfolding add_revision
record_revision i attempt rs = elim i.signed_payload_hash_sha256 [
  | none ↦ rs
  | some hash ↦ if hash == "" then rs else add_revision i attempt hash rs
]

-- The columns that both updates set.
attached_columns : AttachDraws → AttachInput → ExecutionRecord → ExecutionRecord
attached_columns d i row = record row {
  tx_hash = some i.tx_hash;
  submission_status = i.submission_status;
  input_out_points = persisted_inputs i;
  input_refs = persisted_input_refs i;
  next_reconcile_at = i.next_reconcile_at;
  version = row.version + 1;
  updated_at = d.now;
}

unfoldable pub attached_execution : AttachDraws → AttachInput → ExecutionRecord → ExecutionRecord
unfolding attached_columns
attached_execution d i row =
    if creating i
    then record (attached_columns d i row) {
      chain_status = ChainStatus.unobserved;
      workflow_status = WorkflowStatus.idle;
      confirmation_count = 0;
      committed_block_hash = none;
      committed_block_number = none;
      rejection_reason = none;
      submission_error_code = none;
      submission_error_type = none;
      submission_error_details = Json.null;
      conflict_type = none;
      conflict_details = Json.null;
      assertion_status = none;
      assertion_result = Json.null;
      settlement_ready_at = none;
      last_raw_observation = Json.null;
      last_observed_at = none;
      reconcile_attempts = 0;
    }
    else attached_columns d i row

unfoldable pub attached_intent : AttachDraws → AttachInput → String → IntentRecord → IntentRecord
attached_intent d i attempt row = record row {
  active_attempt_id = some attempt;
  winning_attempt_id = if creating i then none else i.aggregate.intent.winning_attempt_id;
  updated_at = d.now;
}

attached_snapshot : AttachInput → ExecutionSnapshot
attached_snapshot i =
    let e = i.aggregate.execution in
    record {
      submission_status = i.submission_status;
      chain_status = if creating i then ChainStatus.unobserved else e.chain_status;
      workflow_status = if creating i then WorkflowStatus.idle else e.workflow_status;
      confirmation_policy = e.confirmation_policy;
      confirmation_count = if creating i then 0 else e.confirmation_count;
      committed_block_hash = if creating i then none else if_given e.committed_block_hash;
      committed_block_number = if creating i then none else if_given e.committed_block_number;
      rejection_reason = none;
    }

unfoldable pub attached_event : AttachDraws → AttachInput → Attachment → EventInput
unfolding attached_snapshot
attached_event d i t = record {
  project_id = i.aggregate.intent.project_id;
  intent_row_id = i.aggregate.intent.id;
  execution_id = i.aggregate.execution.id;
  intent_id = i.aggregate.intent.intent_id;
  tx_hash = some i.tx_hash;
  kind =
      if creating i && truthy i.aggregate.execution.tx_hash
      then "TRANSACTION_ATTEMPT_CREATED"
      else "SUBMISSION_UPDATED";
  from_status = some i.from_status;
  to_status = i.to_status;
  reason = some i.reason;
  raw_observation = some (d.details t.id t.number);
  occurred_at = d.at;
  snapshot = attached_snapshot i;
  assertion_status = if creating i then none else i.aggregate.execution.assertion_status;
  required_assertion_count = length i.aggregate.intent.expected_cells;
  conflict_type = none;
}

unfoldable pub attached_tables : AttachDraws → AttachInput → Attachment → Tables → Tables
attached_tables d i t tables = record {
  rows = record {
    intent = attached_intent d i t.id tables.rows.intent;
    execution = attached_execution d i tables.rows.execution;
    attempts = t.attempts;
    ledger = insert_event_and_outbox d.event_id (attached_event d i t) tables.rows.ledger;
  };
  revisions = record_revision i t.id tables.revisions;
}

unfoldable pub attach_transaction : AttachDraws → AttachInput → Tables → Stored Tables
attach_transaction d i tables = do
  check_replacement i
  t ← attach_attempt d i tables.rows.attempts
  refuse_if (not (same_version i.aggregate tables.rows.execution)) StoreError.changed
  stored (attached_tables d i t tables)
