-- ===== src/Store/Submit.antt =====
-- packages/db/src/repository.ts: `markSubmissionStatus`.
use cell_flow.Prelude.{
  ◌+◌, Bool, not, ◌&&◌, map, Option, none, some, String, if◌then◌else◌, ◌==◌, string_eq, option_eq,
  length,
}
use cell_flow.Json.{Json, or_null}
use cell_flow.Core.Status.{SubmissionStatus, ConflictType, AttemptDisposition, submission_eq}
use cell_flow.Core.Types.{ExecutionSnapshot, SubmissionErrorType}
use cell_flow.Core.Settlement.{truthy}
use cell_flow.Store.Rows.{
  ExecutionRecord, TransactionAttemptRecord, IntentAggregate, if_given, same_version,
}
use cell_flow.Store.Outbox.{EventInput, insert_event_and_outbox}
use cell_flow.Store.Apply.{Rows}
use cell_flow.Store.Errors.{StoreError, Stored, stored, refuse_if, ◌>>◌}

-- In the two documents `none` is `undefined`; `conflict_type` is `null` or `undefined` alike.
pub record MarkInput : Type 0 where
  pub aggregate : IntentAggregate
  pub status : SubmissionStatus
  pub schedule_reconcile : Bool
  pub from_status : String
  pub to_status : String
  pub reason : String
  pub submission_error_code : Option String
  pub submission_error_type : Option SubmissionErrorType
  pub submission_error_details : Option Json
  pub conflict_type : Option ConflictType
  pub conflict_details : Option Json

-- The clocks, the identifier of the event, and the document that it keeps.
pub record MarkDraws : Type 0 where
  pub now : String
  pub at : String
  pub event_id : String
  pub details : Option Json

-- `input.conflictType ?? execution.conflictType`.
marked_conflict : MarkInput → Option ConflictType
marked_conflict i = elim i.conflict_type [
  | none ↦ i.aggregate.execution.conflict_type
  | some c ↦ some c
]

marked_details : MarkInput → Json
marked_details i = elim i.conflict_details [
  | none ↦ i.aggregate.execution.conflict_details
  | some j ↦ j
]

unfoldable pub marked_execution : MarkDraws → MarkInput → ExecutionRecord → ExecutionRecord
unfolding marked_conflict marked_details
marked_execution d i row = record row {
  submission_status = i.status;
  submission_error_code = i.submission_error_code;
  submission_error_type = i.submission_error_type;
  submission_error_details = or_null i.submission_error_details;
  conflict_type = marked_conflict i;
  conflict_details = marked_details i;
  next_reconcile_at =
      if i.schedule_reconcile then some d.at else i.aggregate.execution.next_reconcile_at;
  version = row.version + 1;
  updated_at = d.now;
}

unfoldable pub marked_attempt :
    MarkDraws → MarkInput → TransactionAttemptRecord → TransactionAttemptRecord
unfolding marked_conflict marked_details
marked_attempt d i a =
    if some a.id == i.aggregate.intent.active_attempt_id && a.intent_row_id == i.aggregate.intent.id
    then record a {
      submission_status = i.status;
      submission_error_code = i.submission_error_code;
      submission_error_type = i.submission_error_type;
      submission_error_details = or_null i.submission_error_details;
      conflict_type = marked_conflict i;
      conflict_details = marked_details i;
      disposition =
          if i.status == SubmissionStatus.node_rejected
          then AttemptDisposition.rejected
          else AttemptDisposition.active;
      updated_at = d.now;
    }
    else a

marked_snapshot : MarkInput → ExecutionSnapshot
marked_snapshot i =
    let e = i.aggregate.execution in
    record {
      submission_status = i.status;
      chain_status = e.chain_status;
      workflow_status = e.workflow_status;
      confirmation_policy = e.confirmation_policy;
      confirmation_count = e.confirmation_count;
      committed_block_hash = if_given e.committed_block_hash;
      committed_block_number = if_given e.committed_block_number;
      rejection_reason = none;
    }

unfoldable pub marked_event : MarkDraws → MarkInput → EventInput
unfolding marked_snapshot
marked_event d i = record {
  project_id = i.aggregate.intent.project_id;
  intent_row_id = i.aggregate.intent.id;
  execution_id = i.aggregate.execution.id;
  intent_id = i.aggregate.intent.intent_id;
  tx_hash = i.aggregate.execution.tx_hash;
  kind = "SUBMISSION_UPDATED";
  from_status = some i.from_status;
  to_status = i.to_status;
  reason = some i.reason;
  raw_observation = d.details;
  occurred_at = d.at;
  snapshot = marked_snapshot i;
  assertion_status = i.aggregate.execution.assertion_status;
  required_assertion_count = length i.aggregate.intent.expected_cells;
  conflict_type = none;
}

unfoldable pub marked_rows : MarkDraws → MarkInput → Rows → Rows
marked_rows d i rows = record rows {
  execution = marked_execution d i rows.execution;
  attempts =
      if truthy i.aggregate.intent.active_attempt_id
      then map (marked_attempt d i) rows.attempts
      else rows.attempts;
  ledger = insert_event_and_outbox d.event_id (marked_event d i) rows.ledger;
}

unfoldable pub mark_submission_status : MarkDraws → MarkInput → Rows → Stored Rows
mark_submission_status d i rows = do
  refuse_if (not (same_version i.aggregate rows.execution)) StoreError.changed
  stored (marked_rows d i rows)
