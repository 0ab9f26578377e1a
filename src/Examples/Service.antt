-- ===== src/Examples/Service.antt =====
-- apps/api at work: a wallet registers a transaction, and a node rejects its broadcast.
use cell_flow.Prelude.{
  ◌≡◌, ◌<◌, ◌≤◌, refl, [], ◌∷◌, some, none, false, arith, ℕ, String, length, All,
}
use cell_flow.Prelude.Letters.{lower_text}
use cell_flow.Json.{end}
use cell_flow.Core.Status.{SubmissionStatus, ChainStatus, WorkflowStatus, ConflictType, InputRole}
use cell_flow.Core.Types.{OutPointRef, SubmissionErrorType}
use cell_flow.Core.Errors.{ok}
use cell_flow.Core.Submission.{update_submission}
use cell_flow.Core.Validation.{
  normalize_tx_hash, normalize_out_point_refs, normalize_out_point_ref, normalize_out_point_index,
  map_result,
}
use cell_flow.Core.Validation.Idempotence.{IsNormal, normalize_out_point_refs_lem}
use cell_flow.Store.Rows.{same_version, snapshot_from_execution, TransactionAttemptRecord}
use cell_flow.Store.Apply.{Rows}
use cell_flow.Store.Reading.{get_intent}
use cell_flow.Store.Submit.{mark_submission_status, marked_rows}
use cell_flow.Store.Attach.{
  AttachInput, creating, same_hash, kind_of, persisted_inputs, persisted_input_refs,
  check_replacement,
}
use cell_flow.Store.Attach.Transaction.{Tables, hash_owner, max_number, attach_attempt}
use cell_flow.Store.Attach.Write.{attach_transaction, attached_tables}
use cell_flow.Store.Writers.{idle}
use cell_flow.Api.Retry.{returned, is_concurrent, three_attempts}
use cell_flow.Api.Mark.{
  SubmissionFailureEvidence, Encounter, mark_submission, mark_once, mark_input, check_evidence,
}
use cell_flow.Api.Mark.Reports.{
  IsSupported, IsMarked, mark_submission-IsMarked, mark_submission_calm,
}
use cell_flow.Api.Attach.{
  AttachRequest, AttachEncounter, attach, attach_once, attach_input, check_stored, base_snapshot,
  replacing_hash, caught, disagree,
}
use cell_flow.Api.Attach.Registered.{IsFresh, IsRegistered, attach-IsRegistered}
use cell_flow.Core.Observation.{initial_snapshot}
use cell_flow.Examples.Rows.{before, execution, intent}
use cell_flow.Examples.Attempts.{sent, replacing, first_attempt}

abbrev broadcast : Tables
broadcast = record sent {
  rows = record sent.rows {
    execution = record sent.rows.execution {
      submission_status = SubmissionStatus.broadcasting;
      chain_status = ChainStatus.unobserved;
    };
  };
}

abbrev refusal : SubmissionFailureEvidence
refusal = record {
  error_code = some "-301";
  error_type = SubmissionErrorType.rpc_rejection;
  error_message = some "Resolve failed";
  conflict_type = some ConflictType.input_conflict_suspected;
  details = end;
}

abbrev quiet : Encounter
quiet = record {
  seen = broadcast;
  met = broadcast;
  draws = record { now = "noon"; at = "noon"; event_id = "refused"; details = none };
}

abbrev refused_rows : Rows
refused_rows =
    marked_rows quiet.draws
      (mark_input (get_intent broadcast.rows) SubmissionStatus.node_rejected (some refusal)
        (record (snapshot_from_execution broadcast.rows.execution) {
          submission_status = SubmissionStatus.node_rejected;
        }))
      broadcast.rows

refusal_run :
    mark_submission SubmissionStatus.node_rejected (some refusal) (λ k. quiet)
    ≡ returned refused_rows
unfolding mark_submission check_evidence three_attempts mark_once get_intent update_submission
    mark_submission_status same_version snapshot_from_execution mark_input
refusal_run = refl

mark_submission-IsMarked_example :
    IsSupported SubmissionStatus.node_rejected (some refusal)
    × ((k : ℕ) × (k < 3) × IsMarked SubmissionStatus.node_rejected quiet refused_rows)
mark_submission-IsMarked_example =
    mark_submission-IsMarked SubmissionStatus.node_rejected (some refusal) (λ k. quiet) refused_rows
      (λ k. idle) refusal_run

mark_submission_calm_example :
    is_concurrent (mark_submission SubmissionStatus.node_rejected (some refusal) (λ k. quiet))
    ≡ false
mark_submission_calm_example =
    mark_submission_calm SubmissionStatus.node_rejected (some refusal) (λ k. quiet) 1 (omega arith)
      refl refl

abbrev shouted : String
shouted = "0xABCDEF00000000000000000000000000000000000000000000000000000000AB"

abbrev whispered : String
whispered = "0xabcdef00000000000000000000000000000000000000000000000000000000ab"

points_run :
    normalize_out_point_refs (record { tx_hash = shouted; index = 1 } ∷ [])
    ≡ ok (record { tx_hash = whispered; index = 1 } ∷ [])
unfolding normalize_out_point_refs map_result normalize_out_point_ref normalize_tx_hash
    normalize_out_point_index lower_text
points_run = refl

normalize_out_point_refs_lem_example :
    (length {A = OutPointRef} (record { tx_hash = whispered; index = 1 } ∷ []) ≤ 1024)
    × (length {A = OutPointRef} (record { tx_hash = whispered; index = 1 } ∷ []) ≡ 1)
    × All IsNormal (record { tx_hash = whispered; index = 1 } ∷ [])
    × (normalize_out_point_refs (record { tx_hash = whispered; index = 1 } ∷ [])
        ≡ ok (record { tx_hash = whispered; index = 1 } ∷ []))
normalize_out_point_refs_lem_example =
    normalize_out_point_refs_lem (record { tx_hash = shouted; index = 1 } ∷ [])
      (record { tx_hash = whispered; index = 1 } ∷ []) points_run

-- An intent that has no transaction yet.
abbrev unsent : Tables
unsent = record {
  rows = record before {
    intent = record intent { active_attempt_id = none };
    execution = record execution { tx_hash = none };
  };
  revisions = [];
}

abbrev request : AttachRequest
request = record {
  tx_hash = shouted;
  submission_status = SubmissionStatus.prepared;
  signed_payload_hash_sha256 = none;
  input_out_points = some (record { tx_hash = shouted; index = 1 } ∷ []);
  input_refs = none;
  attempt_kind = none;
  parent_attempt_id = none;
  allow_signed_payload_revision = false;
}

abbrev calm : AttachEncounter
calm = record { seen = unsent; met = unsent; draws = replacing }

abbrev registered_input : AttachInput
registered_input =
    attach_input replacing request (get_intent unsent.rows) whispered
      (some (record { tx_hash = whispered; index = 1 } ∷ [])) none
      (record (initial_snapshot execution.confirmation_policy) {
        submission_status = SubmissionStatus.prepared;
      })

abbrev new_attempt : TransactionAttemptRecord
new_attempt = record first_attempt {
  id = "b";
  tx_hash = whispered;
  input_out_points = record { tx_hash = whispered; index = 1 } ∷ [];
  input_refs =
      record {
        out_point = record { tx_hash = whispered; index = 1 };
        role = InputRole.other;
        resource_key = none;
      }
      ∷ [];
  submission_status = SubmissionStatus.prepared;
  chain_status = ChainStatus.unobserved;
  workflow_status = WorkflowStatus.idle;
  created_at = "noon";
  updated_at = "noon";
}

abbrev registered : Tables
registered =
    attached_tables replacing registered_input
      (record { id = "b"; number = 1; attempts = new_attempt ∷ [] }) unsent

registered_run : attach request (λ k. calm) ≡ returned registered
unfolding attach disagree normalize_out_point_refs map_result normalize_out_point_ref
    normalize_tx_hash normalize_out_point_index lower_text three_attempts attach_once check_stored
    get_intent base_snapshot replacing_hash caught attach_transaction attach_attempt same_version
    creating same_hash kind_of persisted_inputs persisted_input_refs check_replacement hash_owner
    max_number update_submission initial_snapshot snapshot_from_execution attach_input
registered_run = refl

unsent-IsFresh : IsFresh unsent.rows.execution
unfolding snapshot_from_execution initial_snapshot
unsent-IsFresh e = refl

attach-IsRegistered_example :
    (hash : String) × (normalize_tx_hash shouted ≡ ok hash)
    × (k : ℕ) × (k < 3)
    × IsRegistered SubmissionStatus.prepared hash calm registered
attach-IsRegistered_example =
    attach-IsRegistered request (λ k. calm) registered (λ k. idle) (λ k. unsent-IsFresh)
      registered_run
