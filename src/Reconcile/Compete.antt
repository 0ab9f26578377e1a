-- ===== src/Reconcile/Compete.antt =====
-- workflows/reconcile/src/reconcile.ts: `promoteCommittedCompetingCandidate`, which looks at the
-- candidates of an intent that do not drive it. The log of RPC observations is left out. An error
-- of a candidate's steps passes to the next candidate; that of a promotion is the caller's.
pub mod Proven
use cell_flow.Prelude.{
  Bool, not, ◌&&◌, List, [], ◌∷◌, map, Option, none, some, String, if◌then◌else◌, ◌==◌, string_eq,
  option_eq, select,
}
use cell_flow.Json.{Json, text, obj, end, field, nullable_text}
use cell_flow.Core.Status.{
  SubmissionStatus, WorkflowStatus, InputRole, ConflictType, AttemptDisposition, submission_eq,
  disposition_eq, workflow_eq,
}
use cell_flow.Core.Types.{
  OutPointRef, InputRef, ConfirmationPolicy, ExecutionSnapshot, ObservedStatus, ChainObservation,
  ApplyObservationResult,
}
use cell_flow.Core.Errors.{Result, ok, err}
use cell_flow.Core.Settlement.{truthy}
use cell_flow.Core.Observation.{
  initial_snapshot, differs, set_workflow_status, apply_chain_observation, is_committed,
}
use cell_flow.Rpc.Session.{Session, RpcTransactionResult}
use cell_flow.Rpc.Observe.{RpcObservationBundle, observe}
use cell_flow.Store.Rows.{TransactionAttemptRecord, IntentAggregate}
use cell_flow.Store.Apply.{Rows}
use cell_flow.Store.Errors.{Stored}
use cell_flow.Store.Promote.{
  CandidateInput, PromoteInput, PromoteDraws, update_candidate_attempt, promote_attempt_projection,
}
use cell_flow.Reconcile.Draft.{Context, observed_fingerprint, transaction_document}

-- What the scan is given: the endpoint that answers for a candidate, with its blockchain info, and
-- the clocks and identifiers of the writes.
pub record Scanning : Type 0 where
  pub context : Context
  pub session : TransactionAttemptRecord → Session
  pub info : TransactionAttemptRecord → Result Json
  pub updated_at : String
  pub draws : PromoteDraws
  pub next_reconcile_at : String

abbrev pub is_competing : IntentAggregate → TransactionAttemptRecord → Bool
is_competing g a =
    a.disposition == AttemptDisposition.active && not (some a.id == g.intent.active_attempt_id)

-- An input without a role is of the role OTHER.
abbrev pub plain_ref : OutPointRef → InputRef
plain_ref o = record { out_point = o; role = InputRole.other; resource_key = none }

abbrev pub candidate_inputs : TransactionAttemptRecord → List InputRef
candidate_inputs a = elim a.input_refs [ [] ↦ map plain_ref a.input_out_points | i ∷ is ↦ i ∷ is ]

unfoldable pub observe_candidate : Scanning → TransactionAttemptRecord → Result RpcObservationBundle
observe_candidate x a =
    observe (x.session a) (x.info a) x.context.identity x.context.now a.tx_hash none
      (candidate_inputs a)

unfoldable pub candidate_base : ConfirmationPolicy → TransactionAttemptRecord → ExecutionSnapshot
candidate_base policy a = record (initial_snapshot policy) {
  submission_status =
      if a.submission_status == SubmissionStatus.not_submitted
      then SubmissionStatus.submitted
      else a.submission_status;
  chain_status = a.chain_status;
  workflow_status = a.workflow_status;
}

-- The observed payload has a fingerprint other than the one that is known.
unfoldable pub payload_differs :
    Scanning → TransactionAttemptRecord → Option RpcTransactionResult → Bool
payload_differs x a r =
    let found = observed_fingerprint x.context (transaction_document r) in
    truthy a.signed_payload_hash_sha256
    && truthy found
    && differs found a.signed_payload_hash_sha256

unfoldable pub payload_details : Scanning → TransactionAttemptRecord → RpcObservationBundle → Json
payload_details x a b = obj (
    field "source" (text "competing_attempt_scan") (
      field "expectedSignedPayloadHashSha256" (nullable_text a.signed_payload_hash_sha256) (
        field "observedSignedPayloadHashSha256"
          (nullable_text (observed_fingerprint x.context (transaction_document b.rpc_result)))
          (field "rpcEndpoint" (text b.endpoint)
            (field "observedAt" (text b.observation.observed_at) end)))))

-- What is to be done about a candidate.
pub data Verdict : Type 0 where
  skips : Verdict
  updates : CandidateInput → Verdict
  promotes : PromoteInput → Verdict

unfoldable pub side_update :
    IntentAggregate → TransactionAttemptRecord → Result ApplyObservationResult → Verdict
side_update g a (err e) = skips
side_update g a (ok applied) = updates (record {
  aggregate = g;
  attempt_id = a.id;
  snapshot = applied.snapshot;
  conflict_type = none;
  conflict_details = none;
})

unfoldable pub mismatch_update :
    Scanning
    → IntentAggregate
    → TransactionAttemptRecord
    → RpcObservationBundle
    → Result ExecutionSnapshot
    → Verdict
unfolding payload_details
mismatch_update x g a b (err e) = skips
mismatch_update x g a b (ok s) = updates (record {
  aggregate = g;
  attempt_id = a.id;
  snapshot = s;
  conflict_type = some ConflictType.signed_payload_mismatch;
  conflict_details = some (payload_details x a b);
})

unfoldable pub promotion :
    Scanning
    → IntentAggregate
    → TransactionAttemptRecord
    → ChainObservation
    → ApplyObservationResult
    → PromoteInput
promotion x g a o applied = record {
  aggregate = g;
  attempt_id = a.id;
  snapshot = applied.snapshot;
  event_kind =
      if applied.snapshot.workflow_status == WorkflowStatus.confirmed
      then "COMPETING_ATTEMPT_CONFIRMED"
      else "COMPETING_ATTEMPT_COMMITTED";
  reason =
      "A previously unresolved transaction candidate committed on the canonical chain and now drives the intent projection";
  raw_observation = some (x.context.stored_raw o);
  occurred_at = o.observed_at;
  next_reconcile_at = some x.next_reconcile_at;
}

unfoldable pub promotes_applied :
    Scanning
    → IntentAggregate
    → TransactionAttemptRecord
    → ChainObservation
    → Result ApplyObservationResult
    → Verdict
promotes_applied x g a o (err e) = skips
promotes_applied x g a o (ok applied) = promotes (promotion x g a o applied)

unfoldable pub judge_candidate :
    Scanning → IntentAggregate → TransactionAttemptRecord → Result RpcObservationBundle → Verdict
unfolding side_update mismatch_update promotes_applied
judge_candidate x g a (err e) = skips
judge_candidate x g a (ok b) =
    let base = candidate_base g.execution.confirmation_policy a in
    if not (is_committed b.observation.status)
    then side_update g a (apply_chain_observation base b.observation)
    else if payload_differs x a b.rpc_result
    then mismatch_update x g a b (set_workflow_status base WorkflowStatus.conflicted)
    else promotes_applied x g a b.observation (apply_chain_observation base b.observation)

-- The rows that the side updates leave, and what became of a promotion.
pub record Scanned : Type 0 where
  pub rows : Rows
  pub promoted : Option (Stored Rows)

-- The loop from a candidate on: `after` is the rest of it.
unfoldable pub scanned : Scanning → Rows → (Rows → Scanned) → Verdict → Scanned
scanned x rows after skips = after rows
scanned x rows after (updates i) = after (update_candidate_attempt x.updated_at i rows)
scanned x rows after (promotes i) = record {
  rows = rows;
  promoted = some (promote_attempt_projection x.draws i rows);
}

unfoldable pub scan : Scanning → IntentAggregate → List TransactionAttemptRecord → Rows → Scanned
scan x g [] rows = record { rows = rows; promoted = none }
scan x g (a ∷ rest) rows =
    scanned x rows (scan x g rest) (judge_candidate x g a (observe_candidate x a))

unfoldable pub promote_committed_competing_candidate : Scanning → IntentAggregate → Rows → Scanned
unfolding scan
promote_committed_competing_candidate x g rows = scan x g (select (is_competing g) g.attempts) rows
