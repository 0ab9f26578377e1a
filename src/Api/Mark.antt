-- ===== src/Api/Mark.antt =====
-- apps/api/src/service.ts: `markSubmission`, a wallet's report of a broadcast. What each attempt
-- reads and what it then meets in the database are arguments; the intent exists, and
-- the view that is returned is left out.
pub mod Reports
use cell_flow.Prelude.{
  ℕ, Bool, true, false, not, ◌&&◌, ◌||◌, Option, none, some, String, if◌then◌else◌, ◌==◌, is_some,
  option_eq,
}
use cell_flow.Json.{Json, Fields, null, bool, text, obj, end, field, put, nullable_text}
use cell_flow.Core.Status.{SubmissionStatus, ConflictType, submission_eq, conflict_eq}
use cell_flow.Core.Types.{SubmissionErrorType, ExecutionSnapshot, overall_text}
use cell_flow.Core.Errors.{ErrorCode, CellFlowError, Result, failure, throw_if}
use cell_flow.Core.Settlement.{truthy, derive_overall_status}
use cell_flow.Core.Submission.{update_submission, transition_invalid}
use cell_flow.Store.Rows.{IntentAggregate, snapshot_from_execution}
use cell_flow.Store.Apply.{Rows}
use cell_flow.Store.Attach.Transaction.{Tables}
use cell_flow.Store.Reading.{get_intent}
use cell_flow.Store.Submit.{MarkInput, MarkDraws, mark_submission_status}
use cell_flow.Api.Retry.{
  Thrown, Call, returned, threw, from_result, from_stored, throw_when, ◌>>=◌, ◌>>◌, three_attempts,
}

pub record SubmissionFailureEvidence : Type 0 where
  pub error_code : Option String
  pub error_type : SubmissionErrorType
  pub error_message : Option String
  pub conflict_type : Option ConflictType
  pub details : Fields

abbrev pub is_rejection : SubmissionErrorType → Bool
is_rejection SubmissionErrorType.rpc_rejection = true
is_rejection _ = false

-- `failure?.errorType === "RPC_REJECTION"`.
abbrev pub rejection_given : Option SubmissionFailureEvidence → Bool
rejection_given none = false
rejection_given (some f) = is_rejection f.error_type

-- `failure?.conflictType`.
abbrev pub conflict_given : Option SubmissionFailureEvidence → Option ConflictType
conflict_given none = none
conflict_given (some f) = f.conflict_type

abbrev invalid : CellFlowError
invalid = failure ErrorCode.transition_invalid 400

-- The tests before the loop.
unfoldable pub check_evidence :
    SubmissionStatus → Option SubmissionFailureEvidence → Call (Unit {0})
check_evidence status f = do
  throw_when (status == SubmissionStatus.node_rejected && not (rejection_given f)) invalid
  throw_when (status == SubmissionStatus.submission_unknown && rejection_given f) invalid
  throw_when
      (is_some (conflict_given f)
        && not (conflict_given f == some ConflictType.input_conflict_suspected))
      invalid
  throw_when (status == SubmissionStatus.submission_unknown && is_some (conflict_given f)) invalid
  throw_when
      (not (
          status == SubmissionStatus.node_rejected || status == SubmissionStatus.submission_unknown)
        && is_some f)
      invalid

-- `{ ...left, ...right }`.
spread : Fields → Fields → Fields
spread left end = left
spread left (field k v rest) = spread (put k v left) rest

error_document : Option SubmissionFailureEvidence → Json
unfolding spread
error_document none = null
error_document (some f) =
    obj (spread (field "message" (nullable_text f.error_message) end) f.details)

conflict_document : Option ConflictType → Json
conflict_document none = null
conflict_document (some c) =
    obj (field "source" (text "broadcast") (field "canonicalSpendConfirmed" (bool false) end))

reason_of : SubmissionStatus → String
reason_of SubmissionStatus.submission_unknown =
    "Broadcast response was ambiguous; reconcile by deterministic tx hash before retry"
reason_of SubmissionStatus.node_rejected =
    "CKB RPC explicitly rejected the broadcast request; rejection is submission-layer evidence, not proof of canonical input spend"
reason_of SubmissionStatus.broadcasting =
    "Broadcast attempt started after transaction identity was persisted"
reason_of _ = "CKB RPC accepted the broadcast request"

unfoldable pub mark_input :
    IntentAggregate
    → SubmissionStatus
    → Option SubmissionFailureEvidence
    → ExecutionSnapshot
    → MarkInput
unfolding error_document conflict_document reason_of
mark_input current status f after = record {
  aggregate = current;
  status = status;
  schedule_reconcile =
      status == SubmissionStatus.submitted
      || status == SubmissionStatus.submission_unknown
      || (status == SubmissionStatus.node_rejected
          && conflict_given f == some ConflictType.input_conflict_suspected);
  from_status = overall_text (derive_overall_status (snapshot_from_execution current.execution));
  to_status = overall_text (derive_overall_status after);
  reason = reason_of status;
  submission_error_code = elim f [ none ↦ none | some e ↦ e.error_code ];
  submission_error_type = elim f [ none ↦ none | some e ↦ some e.error_type ];
  submission_error_details = some (error_document f);
  conflict_type = conflict_given f;
  conflict_details = some (conflict_document (conflict_given f));
}

-- What an attempt reads, what it then meets, and what it draws.
pub record Encounter : Type 0 where
  pub seen : Tables
  pub met : Tables
  pub draws : MarkDraws

unfoldable pub mark_once :
    SubmissionStatus → Option SubmissionFailureEvidence → Encounter → Call Rows
mark_once status f e = do
  let current = get_intent e.seen.rows
  throw_when (not (truthy current.execution.tx_hash)) (failure ErrorCode.invalid_tx_hash 400)
  after ← from_result (update_submission (snapshot_from_execution current.execution) status)
  from_stored (mark_submission_status e.draws (mark_input current status f after) e.met.rows)

unfoldable pub mark_submission :
    SubmissionStatus → Option SubmissionFailureEvidence → (ℕ → Encounter) → Call Rows
mark_submission status f encounters = do
  check_evidence status f
  three_attempts (λ k. mark_once status f (encounters k))
