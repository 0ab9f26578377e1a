-- ===== src/Examples/Rows.antt =====
-- packages/db at work: an intent whose transaction is confirmed and thereby settled.
use cell_flow.Prelude.{◌≡◌, ◌≢◌, refl, [], ◌∷◌, some, none, Any}
use cell_flow.Json.{Json}
use cell_flow.Core.Status.{SubmissionStatus, ChainStatus, WorkflowStatus}
use cell_flow.Core.Confirmation.{is_confirmation_satisfied}
use cell_flow.Core.Settlement.{is_settlement_ready, derive_overall_status}
use cell_flow.Store.Rows.{
  IntentRecord, ExecutionRecord, snapshot_from_execution, disposition_for_snapshot,
}
use cell_flow.Store.Outbox.{StateEvent, insert_event_and_outbox}
use cell_flow.Store.Apply.{
  Rows, ApplyInput, Draws, written, next_assertion_status, next_conflict_type, prior_ready,
  next_ready, meaningful, updated_attempts, apply_snapshot,
}
use cell_flow.Store.Apply.Versions.{Records, change_recorded}
use cell_flow.Store.Apply.Announcements.{
  announced, IsAnnounced, IsReadFrom, none_yet, then_write, Writes-IsAnnounced,
}
use cell_flow.Examples.Chain.{two_blocks, confirmed_snapshot}

abbrev pub intent : IntentRecord
intent = record {
  id = "i";
  project_id = "p";
  intent_id = "order";
  metadata = Json.null;
  expected_cells = [];
  active_attempt_id = some "a";
  winning_attempt_id = none;
  created_at = "dawn";
  updated_at = "dawn";
}

abbrev pub execution : ExecutionRecord
execution = record {
  id = "e";
  project_id = "p";
  intent_row_id = "i";
  tx_hash = some "0x01";
  input_out_points = [];
  input_refs = [];
  network = "testnet";
  submission_status = SubmissionStatus.not_submitted;
  chain_status = ChainStatus.unobserved;
  workflow_status = WorkflowStatus.idle;
  confirmation_policy = two_blocks;
  confirmation_count = 0;
  committed_block_hash = none;
  committed_block_number = none;
  rejection_reason = none;
  submission_error_code = none;
  submission_error_type = none;
  submission_error_details = Json.null;
  conflict_type = none;
  conflict_details = Json.null;
  assertion_status = none;
  settlement_ready_at = none;
  assertion_result = Json.null;
  last_raw_observation = Json.null;
  last_observed_at = none;
  next_reconcile_at = none;
  reconcile_attempts = 0;
  version = 7;
  reconcile_lease_id = none;
  reconcile_lease_until = none;
  workflow_run_id = none;
  workflow_started_at = none;
  workflow_completed_at = none;
  created_at = "dawn";
  updated_at = "dawn";
}

abbrev pub before : Rows
before = record {
  intent = intent;
  execution = execution;
  attempts = [];
  ledger = record { events = []; endpoints = []; deliveries = [] };
}

abbrev pub input : ApplyInput
input = record {
  aggregate = record {
    intent = intent;
    execution = execution;
    attempts = [];
    active_attempt = none;
    winning_attempt = none;
  };
  snapshot = confirmed_snapshot;
  event = record {
    kind = "CONFIRMED";
    from_status = some "CREATED";
    to_status = "CONFIRMED";
    reason = none;
    raw_observation = none;
    occurred_at = "noon";
  };
  next_reconcile_at = none;
  assertion_status = none;
  assertion_result = none;
  conflict_type = none;
  conflict_details = none;
}

abbrev pub draws : Draws
draws = record { now = "noon"; event_id = "first"; settlement_event_id = "second" }

abbrev confirmed_event : StateEvent
confirmed_event = record {
  id = "first";
  project_id = "p";
  intent_row_id = "i";
  execution_id = "e";
  kind = "CONFIRMED";
  from_status = some "CREATED";
  to_status = "CONFIRMED";
  reason = none;
  raw_observation = Json.null;
  occurred_at = "noon";
}

abbrev pub after : Rows
after = record {
  intent = record intent { updated_at = "noon"; winning_attempt_id = some "a" };
  execution = record execution {
    chain_status = ChainStatus.committed;
    workflow_status = WorkflowStatus.confirmed;
    confirmation_count = 2;
    committed_block_hash = some "0xaa";
    committed_block_number = some "0x10";
    settlement_ready_at = some "noon";
    reconcile_attempts = 1;
    version = 8;
    updated_at = "noon";
  };
  attempts = [];
  ledger = record {
    events =
        record confirmed_event {
          id = "second";
          kind = "SETTLEMENT_READY";
          reason =
              some
                "Canonical confirmation policy and all required expected-Cell assertions verified";
        }
        ∷ confirmed_event
        ∷ [];
    endpoints = [];
    deliveries = [];
  };
}

pub confirmed_write : apply_snapshot draws input before ≡ written after (some "first")
unfolding apply_snapshot next_ready next_assertion_status next_conflict_type prior_ready meaningful
    updated_attempts is_settlement_ready is_confirmation_satisfied snapshot_from_execution
    disposition_for_snapshot insert_event_and_outbox
confirmed_write = refl

status_changes :
    derive_overall_status (snapshot_from_execution execution)
    ≢ derive_overall_status confirmed_snapshot
unfolding derive_overall_status snapshot_from_execution
status_changes e = cc

change_recorded_example :
    (some "first" ≡ some draws.event_id) × Any (Records draws input) after.ledger.events
change_recorded_example =
    change_recorded draws input before after (some "first") confirmed_write status_changes

pub before-IsAnnounced : IsAnnounced before
unfolding announced
before-IsAnnounced = record { told = refl; earned = λ e. cc }

pub input-IsReadFrom : IsReadFrom before input
input-IsReadFrom = record {
  same_execution = refl;
  same_intent = refl;
  same_policy = refl;
  not_ready_kind = λ e. cc;
  not_revoked_kind = λ e. cc;
}

pub after-IsAnnounced : IsAnnounced after
after-IsAnnounced =
    Writes-IsAnnounced {rows = before} {after = after}
      (then_write {before = before} draws input (some "first") none_yet input-IsReadFrom
        confirmed_write)
      before-IsAnnounced
