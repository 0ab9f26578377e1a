-- ===== src/Examples/Deciding.antt =====
-- workflows/reconcile at work: the decisions on an intent that expects a Cell.
use cell_flow.Prelude.{
  ℕ, ◌<◌, ◌≡◌, ◌≢◌, ◌⊎◌, refl, true, false, List, [], ◌∷◌, Option, some, none, String, All, arith,
  length,
}
use cell_flow.Json.{Json, Fields}
use cell_flow.Core.Status.{
  SubmissionStatus, ChainStatus, WorkflowStatus, ConflictType, AttemptKind, AttemptDisposition,
}
use cell_flow.Core.Types.{OverallStatus, ObservedStatus}
use cell_flow.Core.Errors.{ok}
use cell_flow.Core.Observation.Trace.{IsRunning}
use cell_flow.Assertions.{RpcTransaction}
use cell_flow.Rpc.Session.{RpcTransactionResult}
use cell_flow.Rpc.Inspect.{InputInspection}
use cell_flow.Rpc.Observe.{RpcObservationBundle}
use cell_flow.Store.Rows.{TransactionAttemptRecord, IntentAggregate, snapshot_from_execution}
use cell_flow.Reconcile.Assess.Verdict.{Passed}
use cell_flow.Reconcile.Draft.{Context, Draft, payload_mismatch}
use cell_flow.Reconcile.Judge.{judged_draft}
use cell_flow.Reconcile.Judge.Finality.{IsSpentForGood}
use cell_flow.Reconcile.Judge.Payload.{IsShown, IsMismatched}
use cell_flow.Reconcile.Decide.Conflicted.{IsRefuted, conflict_needs_proof}
use cell_flow.Reconcile.Decide.{
  Checked, Outcome, check_cells, checked_ready, with_assessment, decide, outcome,
}
use cell_flow.Reconcile.Decide.Settled.{IsSettledBefore, ready_needs_cells}
use cell_flow.Reconcile.Outage.{decide_unavailable}
use cell_flow.Reconcile.Outage.Kept.{outage_keeps_confirmation}
use cell_flow.Reconcile.Decide.Total.{decide_total}
use cell_flow.Examples.Chain.{confirmed_snapshot, seen, seen_result}
use cell_flow.Examples.Text.{wanted, paying}
use cell_flow.Examples.Node.{anywhere}
use cell_flow.Examples.Rows.{intent, execution, after}
use cell_flow.Examples.Reconciling.{client}

abbrev pub context : Context
context = record {
  client = client;
  endpoints = "node" ∷ "other" ∷ [];
  identity = anywhere;
  inputs = [];
  now = "noon";
  now_ms = 0;
  grace_ms = 30000;
  horizon_ms = 0;
  parse_ms = λ s. none;
  to_iso = λ t. "later";
  fingerprint = λ d. some "0xee";
  stored_inputs = λ is. Json.null;
  stored_results = λ rs. Json.null;
  stored_corroboration = λ c. Json.null;
  stored_raw = λ o. Json.null;
  stored_policy = λ p. Json.null;
}

abbrev pub attempt : TransactionAttemptRecord
attempt = record {
  id = "a";
  project_id = "p";
  intent_row_id = "i";
  attempt_number = 1;
  tx_hash = "0x01";
  signed_payload_hash_sha256 = some "0xdd";
  parent_attempt_id = none;
  attempt_kind = AttemptKind.initial;
  disposition = AttemptDisposition.active;
  input_out_points = [];
  input_refs = [];
  submission_status = SubmissionStatus.submitted;
  chain_status = ChainStatus.unobserved;
  workflow_status = WorkflowStatus.idle;
  submission_error_code = none;
  submission_error_type = none;
  submission_error_details = Json.null;
  conflict_type = none;
  conflict_details = Json.null;
  created_at = "dawn";
  updated_at = "dawn";
}

abbrev pub expecting : IntentAggregate
expecting = record {
  intent = record intent { expected_cells = wanted ∷ [] };
  execution = execution;
  attempts = attempt ∷ [];
  active_attempt = some attempt;
  winning_attempt = none;
}

abbrev rpc_result : RpcTransactionResult
rpc_result = record { transaction = some paying; document = Json.null; tx_status = none }

abbrev bundle : RpcObservationBundle
bundle = record {
  observation = seen;
  rpc_result = some rpc_result;
  endpoint = "node";
  input_inspection = none;
}

abbrev mismatched : Draft
mismatched = record {
  snapshot = record confirmed_snapshot { workflow_status = WorkflowStatus.conflicted };
  event_kind = "SIGNED_PAYLOAD_MISMATCH";
  reason =
      some
        "CKB RPC returned the expected raw transaction hash but a different complete signed-payload fingerprint";
  conflict_type = some ConflictType.signed_payload_mismatch;
  conflict_details = Json.obj (
      Fields.field "source" (Json.text "reconciliation") (
        Fields.field "classification" (Json.text "SIGNED_PAYLOAD_MISMATCH") (
          Fields.field "txHash" (Json.text "0x01") (
            Fields.field "expectedSignedPayloadHashSha256" (Json.text "0xdd") (
              Fields.field "observedSignedPayloadHashSha256" (Json.text "0xee") (
                Fields.field "rpcEndpoint" Json.null
                  (Fields.field "observedAt" (Json.text "noon") Fields.end)))))));
}

abbrev given_up : Outcome
given_up = outcome context expecting seen seen_result (record {
  draft = mismatched;
  assertion_status = execution.assertion_status;
  assertion_result = execution.assertion_result;
})

gives_up : decide context expecting "0x01" bundle ≡ ok given_up
unfolding decide check_cells judged_draft payload_mismatch snapshot_from_execution
    cell_flow.Core.Observation.apply_chain_observation
    cell_flow.Core.Observation.reorg_against_prior_commit
    cell_flow.Core.Settlement.derive_overall_status cell_flow.Reconcile.Draft.mismatch_draft
    cell_flow.Core.Observation.set_workflow_status
    cell_flow.Core.Confirmation.is_confirmation_satisfied
    cell_flow.Core.Confirmation.compute_confirmation_count cell_flow.Reconcile.Draft.first_draft
    cell_flow.Core.Confirmation.confirmation_depth cell_flow.Reconcile.Draft.rejection_superseded
    cell_flow.Core.Confirmation.parse_hex_block_number cell_flow.Core.Confirmation.parse_hex_codes
    cell_flow.Prelude.Digits.read_digits cell_flow.Prelude.Digits.hex_value
gives_up = refl

conflict_needs_proof_example :
    (IsShown seen.status
      × IsMismatched context expecting (some rpc_result)
      × (given_up.apply.conflict_type ≡ some (some ConflictType.signed_payload_mismatch)))
    ⊎ ((seen.status ≡ ObservedStatus.unknown)
        × (found : InputInspection) × (none ≡ some found)
        × IsSpentForGood context execution found
        × (given_up.apply.conflict_type ≡ some (some ConflictType.input_spent)))
    ⊎ (IsRefuted context expecting "0x01" bundle
        × (given_up.apply.conflict_type ≡ some (some ConflictType.expected_cell_assertion_failed)))
unfolding outcome
conflict_needs_proof_example =
    conflict_needs_proof context expecting "0x01" bundle given_up gives_up refl

abbrev confirmed_draft : Draft
confirmed_draft = record {
  snapshot = confirmed_snapshot;
  event_kind = "CONFIRMED";
  reason = none;
  conflict_type = none;
  conflict_details = Json.null;
}

abbrev verified : Checked
verified = record {
  draft = record confirmed_draft { event_kind = "ASSERTION_VERIFIED" };
  assertion_status = some "VERIFIED";
  assertion_result = Json.null;
}

cells_checked : check_cells context expecting "0x01" bundle false confirmed_draft ≡ ok verified
unfolding check_cells with_assessment cell_flow.Reconcile.Schedule.should_reverify_expected_cells
    cell_flow.Reconcile.Assess.evaluate_assertions cell_flow.Reconcile.Assess.assess_each
    cell_flow.Reconcile.Assess.assess_one cell_flow.Assertions.verify_expected_cell
    cell_flow.Assertions.verify_cell_output cell_flow.Assertions.assertion_has_checks
    cell_flow.Assertions.integer_hex_eq cell_flow.Assertions.hex_eq
    cell_flow.Core.Confirmation.parse_hex_codes cell_flow.Prelude.Digits.read_digits
    cell_flow.Prelude.Digits.hex_value cell_flow.Prelude.Letters.lower_text
cells_checked = refl

cells_ready : checked_ready expecting verified ≡ true
unfolding checked_ready cell_flow.Core.Settlement.is_settlement_ready
    cell_flow.Core.Confirmation.is_confirmation_satisfied
cells_ready = refl

ready_needs_cells_example :
    ((found : RpcTransaction) × (some paying ≡ some found)
      × All (Passed client "node" "0x01" found) (wanted ∷ []))
    ⊎ IsSettledBefore expecting confirmed_draft
ready_needs_cells_example =
    ready_needs_cells context expecting "0x01" bundle false confirmed_draft verified cells_checked
      cells_ready (omega arith)

abbrev settled : IntentAggregate
settled = record expecting { intent = after.intent; execution = after.execution }

abbrev outage : Outcome
outage = record {
  apply = record {
    aggregate = settled;
    snapshot = confirmed_snapshot;
    event = record {
      kind = "CHAIN_OBSERVED";
      from_status = some "CONFIRMED";
      to_status = "CONFIRMED";
      reason =
          some
            "Non-committed RPC observation did not prove the previously committed block left the canonical chain";
      raw_observation = some Json.null;
      occurred_at = "noon";
    };
    next_reconcile_at = some "later";
    assertion_status = none;
    assertion_result = none;
    conflict_type = none;
    conflict_details = none;
  };
  status = OverallStatus.confirmed;
  assertion_status = none;
  settlement_ready = false;
  terminal = false;
  next_delay_ms = some 20000;
}

outage_run : decide_unavailable context settled "timeout" ≡ ok outage
unfolding decide_unavailable snapshot_from_execution
    cell_flow.Core.Observation.apply_chain_observation
    cell_flow.Core.Observation.reorg_against_prior_commit
    cell_flow.Core.Settlement.derive_overall_status
    cell_flow.Reconcile.Schedule.next_reconcile_delay_ms cell_flow.Json.get
outage_run = refl

outage_keeps_confirmation_example :
    (outage.apply.snapshot.chain_status ≡ ChainStatus.committed)
    × (outage.apply.snapshot.workflow_status ≡ WorkflowStatus.confirmed)
outage_keeps_confirmation_example =
    outage_keeps_confirmation context settled "timeout" outage outage_run refl refl

running : IsRunning (snapshot_from_execution execution)
unfolding snapshot_from_execution
running = ((λ e. cc), (λ e. cc))

decide_total_example : (out : Outcome) × (decide context expecting "0x01" bundle ≡ ok out)
decide_total_example = decide_total context expecting "0x01" bundle running
