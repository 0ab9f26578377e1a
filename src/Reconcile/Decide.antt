-- ===== src/Reconcile/Decide.antt =====
-- workflows/reconcile/src/reconcile.ts: the rest of `reconcileIntentOnce`, the expected Cells, the
-- schedule and the snapshot that is applied.
pub mod Settled
pub mod Conflicted
pub mod Total
pub mod Recorded
use cell_flow.Prelude.{
  ℕ, ◌+◌, ◌/◌, min, max, Bool, true, false, not, ◌&&◌, ◌||◌, List, Option, none, some, String,
  if◌then◌else◌, ◌==◌, string_eq, option_eq, ltb, length, any, is_some, is_none,
}
use cell_flow.Json.{Json, null, text, obj, end, field, get, as_record, text_is}
use cell_flow.Core.Status.{
  SubmissionStatus, ChainStatus, WorkflowStatus, ConflictType, AttemptDisposition, submission_eq,
  workflow_eq, disposition_eq,
}
use cell_flow.Core.Types.{
  OverallStatus, ExecutionSnapshot, ObservedStatus, ChainObservation, ApplyObservationResult,
  overall_text,
}
use cell_flow.Core.Errors.{Result, ok, err, ◌>>=◌}
use cell_flow.Core.Settlement.{status_is, is_settlement_ready, derive_overall_status}
use cell_flow.Core.Observation.{set_workflow_status, apply_chain_observation}
use cell_flow.Core.Conflict.{break_spend_observation_continuity}
use cell_flow.Assertions.{RpcTransaction, AssertionResult}
use cell_flow.Rpc.Session.{RpcTransactionResult}
use cell_flow.Rpc.Observe.{RpcObservationBundle}
use cell_flow.Store.Rows.{IntentAggregate, TransactionAttemptRecord, snapshot_from_execution}
use cell_flow.Store.Apply.{ApplyInput}
use cell_flow.Reconcile.Schedule.{
  next_reconcile_delay_ms, is_terminal, should_continue_settlement_monitoring, ReverifyInput,
  should_reverify_expected_cells,
}
use cell_flow.Reconcile.Assess.{AssessmentStatus, Assessment, evaluate_assertions}
use cell_flow.Reconcile.Draft.{Context, Draft, kind_text}
use cell_flow.Reconcile.Judge.{judged_draft}

abbrev pub assessment_text : AssessmentStatus → String
assessment_text AssessmentStatus.pending = "PENDING"
assessment_text AssessmentStatus.verified = "VERIFIED"
assessment_text AssessmentStatus.failed = "FAILED"

-- A draft with what is known of the expected Cells.
pub record Checked : Type 0 where
  pub draft : Draft
  pub assertion_status : Option String
  pub assertion_result : Json

-- Before they are checked; what a reorg left behind is dropped.
unchecked : IntentAggregate → Bool → Draft → Checked
unchecked g reorg d =
    if reorg || d.snapshot.workflow_status == WorkflowStatus.reorged
    then record { draft = d; assertion_status = none; assertion_result = null }
    else record {
      draft = d;
      assertion_status = g.execution.assertion_status;
      assertion_result = g.execution.assertion_result;
    }

abbrev pub reverify_input : IntentAggregate → Bool → Draft → ReverifyInput
reverify_input g reorg d = record {
  previously_settled = is_some g.execution.settlement_ready_at;
  previously_verified = status_is g.execution.assertion_status "VERIFIED";
  prior_committed_block_hash = g.execution.committed_block_hash;
  current_committed_block_hash = d.snapshot.committed_block_hash;
  reorg_detected = reorg;
}

must_check : IntentAggregate → Bool → Draft → Bool
must_check g reorg d =
    d.snapshot.workflow_status == WorkflowStatus.confirmed
    && ltb 0 (length g.intent.expected_cells)
    && should_reverify_expected_cells (reverify_input g reorg d)

abbrev stored : Context → Option (List AssertionResult) → Json
stored x none = null
stored x (some rs) = x.stored_results rs

failed_details : Context → ChainObservation → Assessment → Json
failed_details x o v = obj (
    field "source" (text "assertion") (
      field "classification" (text "EXPECTED_CELL_ASSERTION_FAILED")
        (field "evaluatedAt" (text o.observed_at) (field "results" (stored x v.results) end))))

unfoldable pub with_assessment : Context → ChainObservation → Assessment → Draft → Result Checked
unfolding failed_details
with_assessment x o v d = elim v.status [
  | AssessmentStatus.pending ↦ ok (record {
    draft = d;
    assertion_status = some "PENDING";
    assertion_result = stored x v.results;
  })
  | AssessmentStatus.verified ↦ ok (record {
    draft = record d { event_kind = "ASSERTION_VERIFIED" };
    assertion_status = some "VERIFIED";
    assertion_result = stored x v.results;
  })
  | AssessmentStatus.failed ↦ set_workflow_status d.snapshot WorkflowStatus.conflicted >>= λ s.
      ok (record {
        draft = record d {
          snapshot = s;
          event_kind = "ASSERTION_FAILED";
          reason = v.reason;
          conflict_type = some ConflictType.expected_cell_assertion_failed;
          conflict_details = failed_details x o v;
        };
        assertion_status = some "FAILED";
        assertion_result = stored x v.results;
      })
]

abbrev pub transaction_of : Option RpcTransactionResult → Option RpcTransaction
transaction_of none = none
transaction_of (some r) = r.transaction

unfoldable pub check_cells :
    Context → IntentAggregate → String → RpcObservationBundle → Bool → Draft → Result Checked
unfolding unchecked must_check
check_cells x g tx_hash b reorg d =
    if must_check g reorg d
    then with_assessment x b.observation
        (evaluate_assertions x.client b.endpoint tx_hash (transaction_of b.rpc_result)
          g.intent.expected_cells)
        d
    else ok (unchecked g reorg d)

-- Another attempt of the intent is still active.
abbrev pub competes : IntentAggregate → Bool
competes g =
    any
      (λ a.
        a.disposition == AttemptDisposition.active && not (some a.id == g.intent.active_attempt_id))
      g.attempts

-- What a reconciliation writes and returns.
pub record Outcome : Type 0 where
  pub apply : ApplyInput
  pub status : OverallStatus
  pub assertion_status : Option String
  pub settlement_ready : Bool
  pub terminal : Bool
  pub next_delay_ms : Option ℕ

delayed : Context → Option ℕ → Option String
delayed x none = none
delayed x (some ms) = some (x.to_iso (x.now_ms + ms))

first_ready_at : IntentAggregate → ChainObservation → Bool → Option String
first_ready_at g o ready =
    if ready
    then if is_some g.execution.settlement_ready_at
      then g.execution.settlement_ready_at
      else some o.observed_at
    else none

unfoldable pub checked_ready : IntentAggregate → Checked → Bool
checked_ready g k =
    is_settlement_ready k.draft.snapshot k.assertion_status (length g.intent.expected_cells)
      k.draft.conflict_type

unfoldable pub monitoring : Context → IntentAggregate → ChainObservation → Checked → Bool
unfolding first_ready_at
monitoring x g o k =
    should_continue_settlement_monitoring x.parse_ms (checked_ready g k)
      (first_ready_at g o (checked_ready g k)) x.now_ms x.horizon_ms

unfoldable pub ends : Context → IntentAggregate → ChainObservation → Checked → Bool
ends x g o k =
    is_terminal k.draft.snapshot k.assertion_status (length g.intent.expected_cells)
    && not (not (k.draft.snapshot.workflow_status == WorkflowStatus.confirmed) && competes g)
    && not (monitoring x g o k)

-- A rejected submission whose inputs are no longer in conflict.
rejection_resolved : IntentAggregate → ChainObservation → Checked → Bool
rejection_resolved g o k =
    not (not (k.draft.snapshot.workflow_status == WorkflowStatus.confirmed) && competes g)
    && elim o.status [ ObservedStatus.unknown ↦ true | _ ↦ false ]
    && g.execution.submission_status == SubmissionStatus.node_rejected
    && is_none k.draft.conflict_type

next_delay : Context → IntentAggregate → ChainObservation → Checked → Option ℕ
unfolding rejection_resolved
next_delay x g o k =
    if ends x g o k || rejection_resolved g o k
    then none
    else if monitoring x g o k
    then some (min 60000 (max 12000 (x.horizon_ms / 20)))
    else some (next_reconcile_delay_ms g.execution.reconcile_attempts k.draft.snapshot.chain_status)

unfoldable pub outcome :
    Context → IntentAggregate → ChainObservation → ApplyObservationResult → Checked → Outcome
unfolding next_delay delayed
outcome x g o applied k = record {
  apply = record {
    aggregate = g;
    snapshot = k.draft.snapshot;
    event = record {
      kind = k.draft.event_kind;
      from_status = some (overall_text applied.event.from_overall);
      to_status = overall_text (derive_overall_status k.draft.snapshot);
      reason = k.draft.reason;
      raw_observation = some (x.stored_raw o);
      occurred_at = o.observed_at;
    };
    next_reconcile_at = delayed x (next_delay x g o k);
    assertion_status = some k.assertion_status;
    assertion_result = some k.assertion_result;
    conflict_type = some k.draft.conflict_type;
    conflict_details = some k.draft.conflict_details;
  };
  status = derive_overall_status k.draft.snapshot;
  assertion_status = k.assertion_status;
  settlement_ready = checked_ready g k;
  terminal = ends x g o k;
  next_delay_ms = next_delay x g o k;
}

-- The part of `reconcileIntentOnce` after a successful observation of the transaction.
unfoldable pub decide : Context → IntentAggregate → String → RpcObservationBundle → Result Outcome
decide x g tx_hash b = do
  applied ← apply_chain_observation (snapshot_from_execution g.execution) b.observation
  d ← judged_draft x g b.observation b.rpc_result b.input_inspection applied
  k ← check_cells x g tx_hash b applied.reorg_detected d
  ok (outcome x g b.observation applied k)
