-- ===== src/Reconcile/Judge.antt =====
-- workflows/reconcile/src/reconcile.ts: the branches of `reconcileIntentOnce` on the payload and on
-- the inputs.
pub mod Payload
pub mod Finality
pub mod Quiet
use cell_flow.Prelude.{Option, none, some, if◌then◌else◌, string_eq}
use cell_flow.Json.{null, as_record, get, text_is}
use cell_flow.Core.Status.{ConflictType, submission_eq}
use cell_flow.Core.Types.{ObservedStatus, ChainObservation, ApplyObservationResult}
use cell_flow.Core.Errors.{Result, ok}
use cell_flow.Core.Observation.{shows_transaction}
use cell_flow.Core.Conflict.{break_spend_observation_continuity}
use cell_flow.Rpc.Session.{RpcTransactionResult}
use cell_flow.Rpc.Inspect.{InputInspectionState, InputInspection}
use cell_flow.Store.Rows.{ExecutionRecord, IntentAggregate}
use cell_flow.Reconcile.Draft.{
  Context, Draft, payload_mismatch, first_draft, mismatch_draft, found_draft,
}
use cell_flow.Reconcile.Contention.{contended_draft}
use cell_flow.Reconcile.Spend.{spent_draft}

live_draft : Draft → Draft
live_draft d = record d {
  conflict_type = none;
  conflict_details = null;
  event_kind = "INPUT_STATE_INSPECTED";
  reason = some "Exact transaction is absent and all original inputs remain live and available";
}

uncertain_draft : InputInspection → Draft → Draft
uncertain_draft i d =
    let broken =
      break_spend_observation_continuity d.conflict_details i.observed_at
        "Original input state became uncertain" in
    let changed =
      text_is (get "classification" (as_record d.conflict_details)) "INPUT_SPENT_OBSERVED" in
    record d {
      conflict_type =
          if changed then some ConflictType.input_conflict_suspected else d.conflict_type;
      conflict_details = broken;
      event_kind = "INPUT_STATE_UNCERTAIN";
      reason =
          some
            "Exact transaction is absent but the original input state could not be proven; spend-evidence continuity is paused";
    }

inspected_draft : Context → ExecutionRecord → InputInspection → Draft → Result Draft
unfolding live_draft uncertain_draft
inspected_draft x e i d = elim i.state [
  | InputInspectionState.mempool_contended ↦ ok (contended_draft x e i d)
  | InputInspectionState.canonically_spent ↦ spent_draft x e i d
  | InputInspectionState.all_live ↦ ok (live_draft d)
  | InputInspectionState.unknown ↦ ok (uncertain_draft i d)
]

absent_draft :
    Context → ExecutionRecord → ObservedStatus → Option InputInspection → Draft → Result Draft
unfolding inspected_draft
absent_draft x e ObservedStatus.unknown (some i) d = inspected_draft x e i d
absent_draft x e _ _ d = ok d

-- The draft once the payload and the inputs are judged.
unfoldable pub judged_draft :
    Context
    → IntentAggregate
    → ChainObservation
    → Option RpcTransactionResult
    → Option InputInspection
    → ApplyObservationResult
    → Result Draft
unfolding absent_draft
judged_draft x g o r i applied =
    let d = first_draft g.execution o applied in
    if payload_mismatch x g o.status r
    then mismatch_draft x g o r d
    else if shows_transaction o.status
    then ok (found_draft g.execution o.status d)
    else absent_draft x g.execution o.status i d
