-- ===== src/Store/Rows.antt =====
-- packages/db/src/types.ts: the records, `snapshotFromExecution`, and `dispositionForSnapshot` of
-- repository.ts. Timestamps are ISO texts. `expectedCells` is the list of assertions that the
-- readers take it for.
use cell_flow.Prelude.{
  ℕ, List, Option, none, String, if◌then◌else◌, ◌==◌, ◌||◌, ◌&&◌, Bool, nat_beq, string_eq,
}
use cell_flow.Json.{Json}
use cell_flow.Core.Status.{
  SubmissionStatus, ChainStatus, WorkflowStatus, ConflictType, AttemptKind, AttemptDisposition,
  workflow_eq, chain_eq, submission_eq,
}
use cell_flow.Core.Types.{
  OutPointRef, InputRef, ConfirmationPolicy, ExecutionSnapshot, SubmissionErrorType,
}
use cell_flow.Core.Settlement.{truthy}
use cell_flow.Assertions.{ExpectedCellAssertion}

pub record IntentRecord : Type 0 where
  pub id : String
  pub project_id : String
  pub intent_id : String
  pub metadata : Json
  pub expected_cells : List ExpectedCellAssertion
  pub active_attempt_id : Option String
  pub winning_attempt_id : Option String
  pub created_at : String
  pub updated_at : String

pub record ExecutionRecord : Type 0 where
  pub id : String
  pub project_id : String
  pub intent_row_id : String
  pub tx_hash : Option String
  pub input_out_points : List OutPointRef
  pub input_refs : List InputRef
  pub network : String
  pub submission_status : SubmissionStatus
  pub chain_status : ChainStatus
  pub workflow_status : WorkflowStatus
  pub confirmation_policy : ConfirmationPolicy
  pub confirmation_count : ℕ
  pub committed_block_hash : Option String
  pub committed_block_number : Option String
  pub rejection_reason : Option String
  pub submission_error_code : Option String
  pub submission_error_type : Option SubmissionErrorType
  pub submission_error_details : Json
  pub conflict_type : Option ConflictType
  pub conflict_details : Json
  pub assertion_status : Option String
  pub settlement_ready_at : Option String
  pub assertion_result : Json
  pub last_raw_observation : Json
  pub last_observed_at : Option String
  pub next_reconcile_at : Option String
  pub reconcile_attempts : ℕ
  pub version : ℕ
  pub reconcile_lease_id : Option String
  pub reconcile_lease_until : Option String
  pub workflow_run_id : Option String
  pub workflow_started_at : Option String
  pub workflow_completed_at : Option String
  pub created_at : String
  pub updated_at : String

pub record TransactionAttemptRecord : Type 0 where
  pub id : String
  pub project_id : String
  pub intent_row_id : String
  pub attempt_number : ℕ
  pub tx_hash : String
  pub signed_payload_hash_sha256 : Option String
  pub parent_attempt_id : Option String
  pub attempt_kind : AttemptKind
  pub disposition : AttemptDisposition
  pub input_out_points : List OutPointRef
  pub input_refs : List InputRef
  pub submission_status : SubmissionStatus
  pub chain_status : ChainStatus
  pub workflow_status : WorkflowStatus
  pub submission_error_code : Option String
  pub submission_error_type : Option SubmissionErrorType
  pub submission_error_details : Json
  pub conflict_type : Option ConflictType
  pub conflict_details : Json
  pub created_at : String
  pub updated_at : String

pub record IntentAggregate : Type 0 where
  pub intent : IntentRecord
  pub execution : ExecutionRecord
  pub attempts : List TransactionAttemptRecord
  pub active_attempt : Option TransactionAttemptRecord
  pub winning_attempt : Option TransactionAttemptRecord

-- `value ? { field: value } : {}`.
abbrev pub if_given : Option String → Option String
if_given v = if truthy v then v else none

unfoldable pub snapshot_from_execution : ExecutionRecord → ExecutionSnapshot
snapshot_from_execution row = record {
  submission_status = row.submission_status;
  chain_status = row.chain_status;
  workflow_status = row.workflow_status;
  confirmation_policy = row.confirmation_policy;
  confirmation_count = row.confirmation_count;
  committed_block_hash = if_given row.committed_block_hash;
  committed_block_number = if_given row.committed_block_number;
  rejection_reason = if_given row.rejection_reason;
}

unfoldable pub disposition_for_snapshot : ExecutionSnapshot → AttemptDisposition
disposition_for_snapshot s =
    if s.workflow_status == WorkflowStatus.confirmed
    then AttemptDisposition.confirmed
    else if s.workflow_status == WorkflowStatus.conflicted
    then AttemptDisposition.conflicted
    else if s.chain_status == ChainStatus.rejected
        || s.submission_status == SubmissionStatus.node_rejected
    then AttemptDisposition.rejected
    else AttemptDisposition.active

-- Whether an update of the execution, `where id = ... and project_id = ... and version = ...`,
-- finds the row that the aggregate was read from.
unfoldable pub same_version : IntentAggregate → ExecutionRecord → Bool
same_version g row =
    row.id == g.execution.id
    && row.project_id == g.intent.project_id
    && nat_beq row.version g.execution.version
