-- ===== src/Examples/Writing.antt =====
-- A reconciliation of a pending transaction, and its write.
use cell_flow.Prelude.{◌≡◌, refl, false, [], ◌∷◌, some, none}
use cell_flow.Json.{Json}
use cell_flow.Core.Status.{ChainStatus, WorkflowStatus}
use cell_flow.Core.Types.{OverallStatus, ObservedStatus, ExecutionSnapshot}
use cell_flow.Core.Errors.{ok}
use cell_flow.Rpc.Observe.{RpcObservationBundle}
use cell_flow.Store.Rows.{snapshot_from_execution, disposition_for_snapshot}
use cell_flow.Store.Outbox.{insert_event_and_outbox}
use cell_flow.Store.Apply.{Rows, written, apply_snapshot}
use cell_flow.Store.Apply.Announcements.{announced, IsAnnounced}
use cell_flow.Reconcile.Decide.{Outcome, decide}
use cell_flow.Reconcile.Decide.Recorded.{reconcile_keeps_ledger}
use cell_flow.Examples.Chain.{seen, confirmed_snapshot}
use cell_flow.Examples.Rows.{execution, draws}
use cell_flow.Examples.Deciding.{context, expecting}

abbrev pending : RpcObservationBundle
pending = record {
  observation = record seen {
    status = ObservedStatus.pending;
    block_hash = none;
    block_number = none;
    tip_block_number = none;
    canonical_block_hash = none;
  };
  rpc_result = none;
  endpoint = "node";
  input_inspection = none;
}

abbrev pending_snapshot : ExecutionSnapshot
pending_snapshot = record confirmed_snapshot {
  chain_status = ChainStatus.pending;
  workflow_status = WorkflowStatus.reconciling;
  confirmation_count = 0;
  committed_block_hash = none;
  committed_block_number = none;
}

abbrev pending_outcome : Outcome
pending_outcome = record {
  apply = record {
    aggregate = expecting;
    snapshot = pending_snapshot;
    event = record {
      kind = "CHAIN_OBSERVED";
      from_status = some "CREATED";
      to_status = "PENDING";
      reason = none;
      raw_observation = some Json.null;
      occurred_at = "noon";
    };
    next_reconcile_at = some "later";
    assertion_status = some none;
    assertion_result = some Json.null;
    conflict_type = some none;
    conflict_details = some Json.null;
  };
  status = OverallStatus.pending;
  assertion_status = none;
  settlement_ready = false;
  terminal = false;
  next_delay_ms = some 12000;
}

pending_decided : decide context expecting "0x01" pending ≡ ok pending_outcome
unfolding decide snapshot_from_execution cell_flow.Core.Observation.apply_chain_observation
    cell_flow.Core.Observation.reorg_against_prior_commit
    cell_flow.Core.Settlement.derive_overall_status cell_flow.Core.Settlement.is_settlement_ready
    cell_flow.Reconcile.Judge.judged_draft cell_flow.Reconcile.Draft.payload_mismatch
    cell_flow.Reconcile.Draft.first_draft cell_flow.Reconcile.Draft.found_draft
    cell_flow.Reconcile.Draft.rejection_superseded cell_flow.Reconcile.Decide.check_cells
    cell_flow.Reconcile.Decide.outcome cell_flow.Reconcile.Decide.checked_ready
    cell_flow.Reconcile.Decide.monitoring cell_flow.Reconcile.Decide.ends
    cell_flow.Reconcile.Schedule.is_terminal
    cell_flow.Reconcile.Schedule.should_continue_settlement_monitoring
    cell_flow.Reconcile.Schedule.next_reconcile_delay_ms
pending_decided = refl

abbrev rows : Rows
rows = record {
  intent = expecting.intent;
  execution = execution;
  attempts = [];
  ledger = record { events = []; endpoints = []; deliveries = [] };
}

abbrev rows_after : Rows
rows_after = record {
  intent = record expecting.intent { updated_at = "noon" };
  execution = record execution {
    chain_status = ChainStatus.pending;
    workflow_status = WorkflowStatus.reconciling;
    last_observed_at = some "noon";
    next_reconcile_at = some "later";
    reconcile_attempts = 1;
    version = 8;
    updated_at = "noon";
  };
  attempts = [];
  ledger = record {
    events =
        record {
          id = "first";
          project_id = "p";
          intent_row_id = "i";
          execution_id = "e";
          kind = "CHAIN_OBSERVED";
          from_status = some "CREATED";
          to_status = "PENDING";
          reason = none;
          raw_observation = Json.null;
          occurred_at = "noon";
        }
        ∷ [];
    endpoints = [];
    deliveries = [];
  };
}

pending_written :
    apply_snapshot draws pending_outcome.apply rows ≡ written rows_after (some "first")
unfolding apply_snapshot cell_flow.Store.Apply.next_ready
    cell_flow.Store.Apply.next_assertion_status cell_flow.Store.Apply.next_conflict_type
    cell_flow.Store.Apply.prior_ready cell_flow.Store.Apply.meaningful
    cell_flow.Store.Apply.updated_attempts cell_flow.Core.Settlement.is_settlement_ready
    snapshot_from_execution disposition_for_snapshot insert_event_and_outbox
pending_written = refl

rows-IsAnnounced : IsAnnounced rows
unfolding announced
rows-IsAnnounced = record { told = refl; earned = λ e. cc }

reconcile_keeps_ledger_example : IsAnnounced rows_after
reconcile_keeps_ledger_example =
    reconcile_keeps_ledger context expecting "0x01" pending pending_outcome draws rows rows_after
      (some "first") pending_decided refl refl rows-IsAnnounced pending_written
