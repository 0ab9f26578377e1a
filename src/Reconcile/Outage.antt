-- ===== src/Reconcile/Outage.antt =====
-- workflows/reconcile/src/reconcile.ts: the branch of `reconcileIntentOnce` for an observation that
-- failed.
pub mod Kept
use cell_flow.Prelude.{
  ℕ, ◌+◌, ◌/◌, min, max, Bool, true, false, not, ◌&&◌, ◌||◌, List, Option, none, some, String,
  if◌then◌else◌, ◌==◌, string_eq, option_eq, ltb, length, any, is_some, is_none,
}
use cell_flow.Json.{Json, null, text, obj, end, field, get, as_record, text_is}
use cell_flow.Core.Status.{
  SubmissionStatus, ChainStatus, WorkflowStatus, ConflictType, AttemptDisposition, submission_eq,
  workflow_eq, disposition_eq,
}
use cell_flow.Core.Types.{
  OverallStatus, ExecutionSnapshot, ObservedStatus, ChainObservation, ApplyObservationResult,
  overall_text,
}
use cell_flow.Core.Errors.{Result, ok, err, ◌>>=◌}
use cell_flow.Core.Settlement.{status_is, is_settlement_ready, derive_overall_status}
use cell_flow.Core.Observation.{set_workflow_status, apply_chain_observation}
use cell_flow.Core.Conflict.{break_spend_observation_continuity}
use cell_flow.Assertions.{RpcTransaction, AssertionResult}
use cell_flow.Rpc.Session.{RpcTransactionResult}
use cell_flow.Rpc.Observe.{RpcObservationBundle}
use cell_flow.Store.Rows.{IntentAggregate, TransactionAttemptRecord, snapshot_from_execution}
use cell_flow.Store.Apply.{ApplyInput}
use cell_flow.Reconcile.Schedule.{
  next_reconcile_delay_ms, is_terminal, should_continue_settlement_monitoring, ReverifyInput,
  should_reverify_expected_cells,
}
use cell_flow.Reconcile.Assess.{AssessmentStatus, Assessment, evaluate_assertions}
use cell_flow.Reconcile.Draft.{Context, Draft, kind_text}
use cell_flow.Reconcile.Judge.{judged_draft}
use cell_flow.Reconcile.Decide.{Outcome}

-- The observation that stands for a failed one.
failure_observation : Context → ChainObservation
failure_observation x = record {
  status = ObservedStatus.unknown;
  observed_at = x.now;
  block_hash = none;
  block_number = none;
  tip_block_number = none;
  rejection_reason = none;
  rpc_endpoint = none;
  canonical_block_hash = none;
  prior_commit_canonical = none;
}

-- `value ?? message`; the message of the failure is given.
reason_or : Option String → String → String
reason_or none message = message
reason_or (some r) message = r

broken_details : Context → Json → Option Json
broken_details x details =
    if text_is (get "classification" (as_record details)) "INPUT_SPENT_OBSERVED"
    then some (
        break_spend_observation_continuity details x.now
          "RPC observation failed before canonical spend evidence could be rechecked")
    else none

-- The branch of `reconcileIntentOnce` for an observation that failed.
unfoldable pub decide_unavailable : Context → IntentAggregate → String → Result Outcome
unfolding failure_observation reason_or broken_details
decide_unavailable x g message =
    let delay = next_reconcile_delay_ms g.execution.reconcile_attempts ChainStatus.unknown in
    apply_chain_observation (snapshot_from_execution g.execution) (failure_observation x)
    >>= λ applied. ok (record {
      apply = record {
        aggregate = g;
        snapshot = applied.snapshot;
        event = record {
          kind = kind_text applied.event.kind;
          from_status = some (overall_text applied.event.from_overall);
          to_status = overall_text applied.event.to_overall;
          reason = some (reason_or applied.event.reason message);
          raw_observation = some (x.stored_raw (failure_observation x));
          occurred_at = x.now;
        };
        next_reconcile_at = some (x.to_iso (x.now_ms + delay));
        assertion_status = none;
        assertion_result = none;
        conflict_type = none;
        conflict_details = broken_details x g.execution.conflict_details;
      };
      status = derive_overall_status applied.snapshot;
      assertion_status = g.execution.assertion_status;
      settlement_ready = false;
      terminal = false;
      next_delay_ms = some delay;
    })
