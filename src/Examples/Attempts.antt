-- ===== src/Examples/Attempts.antt =====
-- packages/db at work: writers of one intent, an RBF replacement and its promotion.
use cell_flow.Core.Types.{OutPointRef}
use cell_flow.Store.Attach.Guards.{
  IsSafeReplacement, attach_transaction-IsSafeReplacement, rbf_keeps_candidates,
}
use cell_flow.Core.Settlement.{truthy}
use cell_flow.Store.Attach.{
  check_replacement, creating, same_hash, kind_of, is_finalized, potentially_live, shares_input,
  same_key, persisted_inputs, persisted_input_refs, AttachInput,
}
use cell_flow.Store.Attach.Write.{attached_tables, attach_transaction}
use cell_flow.Prelude.{
  ◌≡◌, refl, inl, [], some, none, true, false, is_some, some-injective, All, ◌<◌, ◌++◌, ◌≢◌, arith,
  ap, ◌∷◌, ◌==◌, Option, String, option_eq, string_eq,
}
use cell_flow.Json.{Json}
use cell_flow.Core.Status.{
  SubmissionStatus, ConflictType, InputRole, ChainStatus, WorkflowStatus, AttemptKind,
  AttemptDisposition,
}
use cell_flow.Store.Rows.{same_version, TransactionAttemptRecord}
use cell_flow.Store.Apply.Announcements.{announced}
use cell_flow.Store.Errors.{stored}
use cell_flow.Store.Reading.{get_intent}
use cell_flow.Store.Attach.Transaction.{Tables, max_number, hash_owner, attach_attempt, AttachDraws}
use cell_flow.Store.Submit.{MarkInput, MarkDraws, mark_submission_status, marked_rows}
use cell_flow.Store.Writers.{applies, marks, idle, then_writes, WriterRun, IsCalmRun}
use cell_flow.Store.Writers.Accounts.{IsAccounted, ready_of}
use cell_flow.Store.Writers.Settling.{late_conflict_unannounced}
use cell_flow.Store.Writers.Runs.{WriterRun-IsAccounted}
use cell_flow.Examples.Rows.{
  before, after, input, draws, input-IsReadFrom, before-IsAnnounced, after-IsAnnounced,
  confirmed_write, intent, execution,
}

abbrev pub at_first : Tables
at_first = record { rows = before; revisions = [] }

abbrev pub settled : Tables
settled = record { rows = after; revisions = [] }

abbrev pub reported : MarkDraws
reported = record { now = "dusk"; at = "dusk"; event_id = "third"; details = none }

-- A wallet's report on the settled execution.
abbrev pub report : MarkInput
report = record {
  aggregate = get_intent after;
  status = SubmissionStatus.submitted;
  schedule_reconcile = true;
  from_status = "CONFIRMED";
  to_status = "CONFIRMED";
  reason = "CKB RPC accepted the broadcast request";
  submission_error_code = none;
  submission_error_type = none;
  submission_error_details = some Json.null;
  conflict_type = none;
  conflict_details = some Json.null;
}

report_written :
    mark_submission_status reported report after ≡ stored (marked_rows reported report after)
unfolding mark_submission_status get_intent same_version
report_written = refl

confirmed_then_reported :
    WriterRun at_first (record { rows = marked_rows reported report after; revisions = [] })
confirmed_then_reported =
    then_writes {before = settled}
      (then_writes {before = at_first} {after = settled} idle
        (applies draws input (some "first") input-IsReadFrom refl confirmed_write))
      (marks reported report refl report_written)

before-IsAccounted : IsAccounted before
before-IsAccounted = record { announced = before-IsAnnounced; hashed = λ q. cc }

confirmed_calm : IsCalmRun confirmed_then_reported
unfolding confirmed_then_reported
confirmed_calm = ((tt, tt), inl refl)

WriterRun-IsAccounted_example : IsAccounted (marked_rows reported report after)
WriterRun-IsAccounted_example =
    WriterRun-IsAccounted confirmed_then_reported confirmed_calm before-IsAccounted

after-IsAccounted : IsAccounted after
after-IsAccounted = record { announced = after-IsAnnounced; hashed = λ q. refl }

-- A node's rejection that suspects a conflict, after the settlement.
abbrev late : MarkInput
late = record report {
  status = SubmissionStatus.node_rejected;
  conflict_type = some ConflictType.input_conflict_suspected;
}

late_written : mark_submission_status reported late after ≡ stored (marked_rows reported late after)
unfolding mark_submission_status get_intent same_version
late_written = refl

late_conflict_unannounced_example :
    (is_some (marked_rows reported late after).execution.settlement_ready_at ≡ true)
    × (announced (marked_rows reported late after).ledger.events ≡ true)
    × (ready_of (marked_rows reported late after) ≡ false)
late_conflict_unannounced_example =
    late_conflict_unannounced reported late after (marked_rows reported late after)
      ConflictType.input_conflict_suspected after-IsAccounted refl refl late_written

abbrev pub point : OutPointRef
point = record { tx_hash = "0x0f"; index = 3 }

abbrev pub first_attempt : TransactionAttemptRecord
first_attempt = record {
  id = "a";
  project_id = "p";
  intent_row_id = "i";
  attempt_number = 1;
  tx_hash = "0x01";
  signed_payload_hash_sha256 = none;
  parent_attempt_id = none;
  attempt_kind = AttemptKind.initial;
  disposition = AttemptDisposition.active;
  input_out_points = point ∷ [];
  input_refs = [];
  submission_status = SubmissionStatus.submitted;
  chain_status = ChainStatus.pending;
  workflow_status = WorkflowStatus.reconciling;
  submission_error_code = none;
  submission_error_type = none;
  submission_error_details = Json.null;
  conflict_type = none;
  conflict_details = Json.null;
  created_at = "dawn";
  updated_at = "dawn";
}

-- A transaction that may still commit.
abbrev pub sent : Tables
sent = record {
  rows = record before {
    execution = record execution {
      submission_status = SubmissionStatus.submitted;
      chain_status = ChainStatus.pending;
      workflow_status = WorkflowStatus.reconciling;
      input_out_points = point ∷ [];
    };
    attempts = first_attempt ∷ [];
  };
  revisions = [];
}

abbrev pub replacing : AttachDraws
replacing = record {
  now = "noon";
  at = "noon";
  attempt_id = "b";
  event_id = "replaced";
  same_inputs = λ x y. true;
  same_refs = λ x y. true;
  details = λ id n. Json.null;
}

abbrev pub replacement : AttachInput
replacement = record {
  aggregate = get_intent sent.rows;
  tx_hash = "0x02";
  signed_payload_hash_sha256 = none;
  allow_signed_payload_revision = false;
  submission_status = SubmissionStatus.prepared;
  input_out_points = some (point ∷ []);
  input_refs = none;
  attempt_kind = some AttemptKind.rbf_replacement;
  parent_attempt_id = none;
  next_reconcile_at = none;
  from_status = "PENDING";
  to_status = "PREPARED";
  reason = "replaced";
}

abbrev pub second_attempt : TransactionAttemptRecord
second_attempt = record first_attempt {
  id = "b";
  attempt_number = 2;
  tx_hash = "0x02";
  parent_attempt_id = some "a";
  attempt_kind = AttemptKind.rbf_replacement;
  input_refs = record { out_point = point; role = InputRole.other; resource_key = none } ∷ [];
  submission_status = SubmissionStatus.prepared;
  chain_status = ChainStatus.unobserved;
  workflow_status = WorkflowStatus.idle;
  created_at = "noon";
  updated_at = "noon";
}

abbrev replaced : Tables
replaced =
    attached_tables replacing replacement
      (record { id = "b"; number = 2; attempts = first_attempt ∷ second_attempt ∷ [] }) sent

replaced_run : attach_transaction replacing replacement sent ≡ stored replaced
unfolding attach_transaction check_replacement attach_attempt get_intent same_version creating
    same_hash kind_of is_finalized potentially_live shares_input same_key persisted_inputs
    persisted_input_refs hash_owner max_number cell_flow.Prelude.Letters.lower_text
replaced_run = refl

other_hash : replacement.aggregate.execution.tx_hash ≢ some "0x02"
unfolding get_intent
other_hash e = let t : true ≡ false = ap (λ (o : Option String). o == some "0x01") e in cc t

has_hash : truthy replacement.aggregate.execution.tx_hash ≡ true
unfolding get_intent
has_hash = refl

no_owner : hash_owner replacement sent.rows.attempts ≡ none
unfolding hash_owner get_intent
no_owner = refl

kind_known : kind_of replacement ≡ AttemptKind.rbf_replacement
unfolding kind_of
kind_known = refl

attach_transaction-IsSafeReplacement_example : IsSafeReplacement replacement
attach_transaction-IsSafeReplacement_example =
    attach_transaction-IsSafeReplacement replacing replacement sent replaced replaced_run other_hash
      has_hash

rbf_keeps_candidates_example :
    (new : TransactionAttemptRecord) × (replaced.rows.attempts ≡ sent.rows.attempts ++ new ∷ [])
    × (new.disposition ≡ AttemptDisposition.active)
    × (new.tx_hash ≡ "0x02")
    × All
        (λ a. a.intent_row_id ≡ intent.id → a.attempt_number < new.attempt_number)
        sent.rows.attempts
unfolding get_intent
rbf_keeps_candidates_example =
    rbf_keeps_candidates replacing replacement sent replaced replaced_run no_owner kind_known
