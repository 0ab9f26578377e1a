-- ===== src/Store/Promote.antt =====
-- packages/db/src/repository.ts: `updateCandidateAttempt` and `promoteAttemptProjection`.
pub mod Winner
use cell_flow.Prelude.{
  ◌+◌, Bool, not, ◌&&◌, map, List, Option, none, some, String, if◌then◌else◌, ◌==◌, string_eq,
  option_eq, length, find, is_some,
}
use cell_flow.Json.{Json, or_null}
use cell_flow.Core.Status.{ConflictType, AttemptDisposition, disposition_eq}
use cell_flow.Core.Types.{ExecutionSnapshot, overall_text}
use cell_flow.Core.Settlement.{is_settlement_ready, derive_overall_status}
use cell_flow.Store.Rows.{
  IntentRecord, ExecutionRecord, TransactionAttemptRecord, IntentAggregate, snapshot_from_execution,
  disposition_for_snapshot, same_version,
}
use cell_flow.Store.Outbox.{EventInput, Ledger, insert_event_and_outbox}
use cell_flow.Store.Apply.{Rows, bool_differs}
use cell_flow.Store.Errors.{StoreError, Stored, stored, refused, refuse_if, ◌>>◌}

pub record CandidateInput : Type 0 where
  pub aggregate : IntentAggregate
  pub attempt_id : String
  pub snapshot : ExecutionSnapshot
  pub conflict_type : Option ConflictType
  pub conflict_details : Option Json

candidate_update : String → CandidateInput → TransactionAttemptRecord → TransactionAttemptRecord
candidate_update now i a =
    if a.id == i.attempt_id && a.intent_row_id == i.aggregate.intent.id
    then record a {
      submission_status = i.snapshot.submission_status;
      chain_status = i.snapshot.chain_status;
      workflow_status = i.snapshot.workflow_status;
      disposition = disposition_for_snapshot i.snapshot;
      conflict_type = i.conflict_type;
      conflict_details = or_null i.conflict_details;
      updated_at = now;
    }
    else a

-- At the database's time.
unfoldable pub update_candidate_attempt : String → CandidateInput → Rows → Rows
unfolding candidate_update
update_candidate_attempt now i rows = record rows {
  attempts = map (candidate_update now i) rows.attempts;
}

pub record PromoteInput : Type 0 where
  pub aggregate : IntentAggregate
  pub attempt_id : String
  pub snapshot : ExecutionSnapshot
  pub event_kind : String
  pub reason : String
  pub raw_observation : Option Json
  pub occurred_at : String
  pub next_reconcile_at : Option String

-- The clocks, the identifiers that the call may draw.
pub record PromoteDraws : Type 0 where
  pub now : String
  pub at : String
  pub event_id : String
  pub settlement_event_id : String

unfoldable pub candidate_of : PromoteInput → Option TransactionAttemptRecord
candidate_of i = find (λ a. a.id == i.attempt_id) i.aggregate.attempts

unfoldable pub old_settlement_ready : PromoteInput → Bool
old_settlement_ready i =
    let e = i.aggregate.execution in
    is_some e.settlement_ready_at
    && is_settlement_ready (snapshot_from_execution e) e.assertion_status
        (length i.aggregate.intent.expected_cells) e.conflict_type

unfoldable pub promoted_ready : PromoteInput → TransactionAttemptRecord → Bool
promoted_ready i a =
    is_settlement_ready i.snapshot none (length i.aggregate.intent.expected_cells) a.conflict_type

unfoldable pub promoted_execution :
    PromoteDraws → PromoteInput → TransactionAttemptRecord → ExecutionRecord → ExecutionRecord
promoted_execution d i a row = record row {
  tx_hash = some a.tx_hash;
  input_out_points = a.input_out_points;
  input_refs = a.input_refs;
  submission_status = i.snapshot.submission_status;
  chain_status = i.snapshot.chain_status;
  workflow_status = i.snapshot.workflow_status;
  confirmation_count = i.snapshot.confirmation_count;
  committed_block_hash = i.snapshot.committed_block_hash;
  committed_block_number = i.snapshot.committed_block_number;
  rejection_reason = i.snapshot.rejection_reason;
  submission_error_code = a.submission_error_code;
  submission_error_type = a.submission_error_type;
  submission_error_details = a.submission_error_details;
  conflict_type = a.conflict_type;
  conflict_details = a.conflict_details;
  assertion_status = none;
  assertion_result = Json.null;
  settlement_ready_at = if promoted_ready i a then some i.occurred_at else none;
  last_raw_observation = or_null i.raw_observation;
  last_observed_at = some i.occurred_at;
  next_reconcile_at = elim i.next_reconcile_at [ none ↦ some d.at | some t ↦ some t ];
  reconcile_attempts = 0;
  version = row.version + 1;
  updated_at = d.now;
}

abbrev pub is_winning : PromoteInput → Bool
is_winning i = disposition_for_snapshot i.snapshot == AttemptDisposition.confirmed

promoted_attempt :
    PromoteDraws
    → PromoteInput
    → TransactionAttemptRecord
    → TransactionAttemptRecord
    → TransactionAttemptRecord
promoted_attempt d i a b =
    if b.id == a.id && b.intent_row_id == i.aggregate.intent.id
    then record b {
      submission_status = i.snapshot.submission_status;
      chain_status = i.snapshot.chain_status;
      workflow_status = i.snapshot.workflow_status;
      disposition = disposition_for_snapshot i.snapshot;
      updated_at = d.now;
    }
    else b

-- The other active attempts, once the promoted one is confirmed.
beaten_attempt :
    PromoteDraws
    → PromoteInput
    → TransactionAttemptRecord
    → TransactionAttemptRecord
    → TransactionAttemptRecord
beaten_attempt d i a b =
    if b.intent_row_id == i.aggregate.intent.id
      && not (b.id == a.id)
      && b.disposition == AttemptDisposition.active
    then record b { disposition = AttemptDisposition.superseded; updated_at = d.now }
    else b

unfoldable pub promoted_attempts :
    PromoteDraws
    → PromoteInput
    → TransactionAttemptRecord
    → List TransactionAttemptRecord
    → List TransactionAttemptRecord
unfolding promoted_attempt beaten_attempt
promoted_attempts d i a table =
    let updated = map (promoted_attempt d i a) table in
    if is_winning i then map (beaten_attempt d i a) updated else updated

unfoldable pub promoted_intent :
    PromoteDraws → PromoteInput → TransactionAttemptRecord → IntentRecord → IntentRecord
promoted_intent d i a row = record row {
  active_attempt_id = some a.id;
  winning_attempt_id = if is_winning i then some a.id else i.aggregate.intent.winning_attempt_id;
  updated_at = d.now;
}

unfoldable pub promoted_event : PromoteDraws → PromoteInput → TransactionAttemptRecord → EventInput
promoted_event d i a = record {
  project_id = i.aggregate.intent.project_id;
  intent_row_id = i.aggregate.intent.id;
  execution_id = i.aggregate.execution.id;
  intent_id = i.aggregate.intent.intent_id;
  tx_hash = some a.tx_hash;
  kind = i.event_kind;
  from_status =
      some (overall_text (derive_overall_status (snapshot_from_execution i.aggregate.execution)));
  to_status = overall_text (derive_overall_status i.snapshot);
  reason = some i.reason;
  raw_observation = i.raw_observation;
  occurred_at = i.occurred_at;
  snapshot = i.snapshot;
  assertion_status = none;
  required_assertion_count = length i.aggregate.intent.expected_cells;
  conflict_type = none;
}

unfoldable pub promotion_event : PromoteDraws → PromoteInput → TransactionAttemptRecord → EventInput
unfolding promoted_event
promotion_event d i a = record (promoted_event d i a) {
  kind = if promoted_ready i a then "SETTLEMENT_READY" else "SETTLEMENT_REVOKED";
  conflict_type = a.conflict_type;
  reason = some (
      if promoted_ready i a
      then "Promoted canonical competing transaction satisfied the confirmation policy with no required Cell assertions"
      else "Competing transaction replaced the previous settlement projection; downstream applications must assess compensation");
}

unfoldable pub promoted_ledger :
    PromoteDraws → PromoteInput → TransactionAttemptRecord → Ledger → Ledger
promoted_ledger d i a l =
    let first = insert_event_and_outbox d.event_id (promoted_event d i a) l in
    if bool_differs (old_settlement_ready i) (promoted_ready i a)
    then insert_event_and_outbox d.settlement_event_id (promotion_event d i a) first
    else first

unfoldable pub promoted_rows : PromoteDraws → PromoteInput → TransactionAttemptRecord → Rows → Rows
promoted_rows d i a rows = record {
  intent = promoted_intent d i a rows.intent;
  execution = promoted_execution d i a rows.execution;
  attempts = promoted_attempts d i a rows.attempts;
  ledger = promoted_ledger d i a rows.ledger;
}

promote_candidate :
    PromoteDraws → PromoteInput → Rows → Option TransactionAttemptRecord → Stored Rows
promote_candidate d i rows none = refused StoreError.attempt_parent_conflict
promote_candidate d i rows (some a) = do
  refuse_if (not (same_version i.aggregate rows.execution)) StoreError.changed
  stored (promoted_rows d i a rows)

unfoldable pub promote_attempt_projection : PromoteDraws → PromoteInput → Rows → Stored Rows
unfolding promote_candidate
promote_attempt_projection d i rows = promote_candidate d i rows (candidate_of i)
