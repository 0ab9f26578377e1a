-- ===== src/Reconcile/Draft.antt =====
-- workflows/reconcile/src/reconcile.ts: the part of `reconcileIntentOnce` that follows the
-- observation up to the expected Cells: the draft of the next snapshot, event and conflict.
-- What is outside the model is in the context: the fingerprint of a signed payload, the reading and
-- writing of times, and the documents in which evidence is stored.
use cell_flow.Prelude.{
  ℕ, Bool, ◌&&◌, List, Option, none, some, String, if◌then◌else◌, ◌==◌, string_eq, is_some,
}
use cell_flow.Json.{Json, null, text, obj, end, field, nullable_text}
use cell_flow.Core.Status.{
  SubmissionStatus, WorkflowStatus, ConflictDomain, ConflictType, submission_eq,
}
use cell_flow.Core.Types.{
  InputRef, ConfirmationPolicy, ExecutionSnapshot, ObservedStatus, ChainObservation, EventKind,
  ApplyObservationResult,
}
use cell_flow.Core.Errors.{Result, ok, ◌>>=◌}
use cell_flow.Core.Settlement.{truthy}
use cell_flow.Core.Observation.{
  differs, shows_transaction, set_workflow_status, supersede_node_rejection,
}
use cell_flow.Assertions.{AssertionResult}
use cell_flow.Rpc.Session.{RpcTransactionResult}
use cell_flow.Rpc.Inspect.{InputObservation}
use cell_flow.Rpc.Observe.{Identity}
use cell_flow.Rpc.Client.{Client}
use cell_flow.Reconcile.Corroborate.{Corroboration}
use cell_flow.Store.Rows.{ExecutionRecord, TransactionAttemptRecord, IntentAggregate}

pub record Context : Type 0 where
  pub client : Client
  pub endpoints : List String
  pub identity : Identity
  pub inputs : List InputRef
  pub now : String
  pub now_ms : ℕ
  pub grace_ms : ℕ
  pub horizon_ms : ℕ
  pub parse_ms : String → Option ℕ
  pub to_iso : ℕ → String
  pub fingerprint : Json → Option String
  pub stored_inputs : List InputObservation → Json
  pub stored_results : List AssertionResult → Json
  pub stored_corroboration : Corroboration → Json
  pub stored_raw : ChainObservation → Json
  pub stored_policy : ConfirmationPolicy → Json

pub record Draft : Type 0 where
  pub snapshot : ExecutionSnapshot
  pub event_kind : String
  pub reason : Option String
  pub conflict_type : Option ConflictType
  pub conflict_details : Json

abbrev pub kind_text : EventKind → String
kind_text EventKind.chain_observed = "CHAIN_OBSERVED"
kind_text EventKind.reorg_detected = "REORG_DETECTED"
kind_text EventKind.confirmed = "CONFIRMED"

abbrev pub domain_text : ConflictDomain → String
domain_text ConflictDomain.application = "APPLICATION"
domain_text ConflictDomain.wallet = "WALLET"
domain_text ConflictDomain.mixed = "MIXED"
domain_text ConflictDomain.unknown = "UNKNOWN"

unfoldable pub rejection_superseded : ExecutionRecord → ObservedStatus → Bool
rejection_superseded e status =
    e.submission_status == SubmissionStatus.node_rejected && shows_transaction status

-- The draft before the observation's evidence is looked at.
unfoldable pub first_draft : ExecutionRecord → ChainObservation → ApplyObservationResult → Draft
first_draft e o applied = record {
  snapshot =
      if rejection_superseded e o.status
      then supersede_node_rejection applied.snapshot o.status
      else applied.snapshot;
  event_kind = kind_text applied.event.kind;
  reason = applied.event.reason;
  conflict_type = e.conflict_type;
  conflict_details = e.conflict_details;
}

abbrev pub attempt_hash : Option TransactionAttemptRecord → Option String
attempt_hash none = none
attempt_hash (some a) = a.signed_payload_hash_sha256

abbrev pub transaction_document : Option RpcTransactionResult → Option Json
transaction_document none = none
transaction_document (some r) = if is_some r.transaction then some r.document else none

unfoldable pub observed_fingerprint : Context → Option Json → Option String
observed_fingerprint x none = none
observed_fingerprint x (some document) = x.fingerprint document

-- `signedPayloadMismatch`, from the two fingerprints.
unfoldable pub payload_mismatch :
    Context → IntentAggregate → ObservedStatus → Option RpcTransactionResult → Bool
unfolding observed_fingerprint
payload_mismatch x g status r =
    let found = observed_fingerprint x (transaction_document r) in
    truthy (attempt_hash g.active_attempt)
    && shows_transaction status
    && truthy found
    && differs found (attempt_hash g.active_attempt)

-- The endpoint stands in the observation too.
mismatch_details : Context → IntentAggregate → ChainObservation → Option RpcTransactionResult → Json
unfolding observed_fingerprint
mismatch_details x g o r = obj (
    field "source" (text "reconciliation") (
      field "classification" (text "SIGNED_PAYLOAD_MISMATCH") (
        field "txHash" (nullable_text g.execution.tx_hash) (
          field "expectedSignedPayloadHashSha256" (nullable_text (attempt_hash g.active_attempt)) (
            field "observedSignedPayloadHashSha256"
              (nullable_text (observed_fingerprint x (transaction_document r)))
              (field "rpcEndpoint" (nullable_text o.rpc_endpoint)
                (field "observedAt" (text o.observed_at) end)))))))

unfoldable pub mismatch_draft :
    Context
    → IntentAggregate
    → ChainObservation
    → Option RpcTransactionResult
    → Draft
    → Result Draft
unfolding mismatch_details
mismatch_draft x g o r d = do
  s ← set_workflow_status d.snapshot WorkflowStatus.conflicted
  ok (record d {
    snapshot = s;
    event_kind = "SIGNED_PAYLOAD_MISMATCH";
    reason =
        some
          "CKB RPC returned the expected raw transaction hash but a different complete signed-payload fingerprint";
    conflict_type = some ConflictType.signed_payload_mismatch;
    conflict_details = mismatch_details x g o r;
  })

-- The exact transaction is seen.
unfoldable pub found_draft : ExecutionRecord → ObservedStatus → Draft → Draft
found_draft e status d =
    if rejection_superseded e status
    then record d {
      conflict_type = none;
      conflict_details = null;
      event_kind = "SUBMISSION_REJECTION_SUPERSEDED";
      reason =
          some
            "A later direct chain observation proved that the exact transaction exists; earlier node rejection evidence was superseded";
    }
    else record d { conflict_type = none; conflict_details = null }
