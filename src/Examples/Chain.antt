-- ===== src/Examples/Chain.antt =====
-- packages/core/src/state-machine.ts at work: a transaction that is submitted, confirmed, doubted
-- and reorganised away.
use cell_flow.Prelude.{
  ℕ, ◌≡◌, ◌≢◌, ◌⊎◌, ◌↔◌, ◌<◌, ◌≤◌, refl, true, false, List, [], ◌∷◌, Option, some, none, String,
  inl, inr, Any, if◌then◌else◌, ◌==◌,
}
use cell_flow.Core.Status.{SubmissionStatus, ChainStatus, WorkflowStatus, workflow_eq}
use cell_flow.Core.Types.{
  ConfirmationPolicy, OverallStatus, ExecutionSnapshot, ObservedStatus, ChainObservation, EventKind,
  ApplyObservationResult,
}
use cell_flow.Core.Errors.{ok}
use cell_flow.Core.Confirmation.{
  is_confirmation_satisfied, compute_confirmation_count, confirmation_depth, parse_hex_block_number,
  parse_hex_codes,
}
use cell_flow.Core.Settlement.{derive_overall_status}
use cell_flow.Core.Settlement.Projection.{overall_confirmed}
use cell_flow.Core.Submission.{update_submission}
use cell_flow.Core.Submission.Graph.{
  ◌⟶◌, lose, IsOpen, update_all, update_submission_sound, update_submission_complete,
}
use cell_flow.Core.Observation.{
  initial_snapshot, apply_chain_observation, reorg_against_prior_commit,
}
use cell_flow.Core.Observation.Soundness.{IsSound, start, step, observes, Reach-IsSound}
use cell_flow.Core.Observation.Reorg.{IsReorgEvidence, commit_kept, confirmation_lost}
use cell_flow.Core.Observation.Trace.{observe_all, Confirms, confirmed_needs_commit}

abbrev pub two_blocks : ConfirmationPolicy
two_blocks = ConfirmationPolicy.depth 2

abbrev pub seen : ChainObservation
seen = record {
  status = ObservedStatus.committed;
  observed_at = "noon";
  block_hash = some "0xaa";
  block_number = some "0x10";
  tip_block_number = some "0x11";
  rejection_reason = none;
  rpc_endpoint = none;
  canonical_block_hash = some "0xaa";
  prior_commit_canonical = none;
}

abbrev pub confirmed_snapshot : ExecutionSnapshot
confirmed_snapshot = record {
  submission_status = SubmissionStatus.not_submitted;
  chain_status = ChainStatus.committed;
  workflow_status = WorkflowStatus.confirmed;
  confirmation_policy = two_blocks;
  confirmation_count = 2;
  committed_block_hash = some "0xaa";
  committed_block_number = some "0x10";
  rejection_reason = none;
}

abbrev pub seen_result : ApplyObservationResult
seen_result = record {
  snapshot = confirmed_snapshot;
  event = record {
    kind = EventKind.confirmed;
    from_overall = OverallStatus.created;
    to_overall = OverallStatus.confirmed;
    at = "noon";
    reason = none;
    observation = seen;
  };
  reorg_detected = false;
}

seen_applies : apply_chain_observation (initial_snapshot two_blocks) seen ≡ ok seen_result
unfolding apply_chain_observation initial_snapshot reorg_against_prior_commit derive_overall_status
    is_confirmation_satisfied compute_confirmation_count confirmation_depth parse_hex_block_number
    parse_hex_codes cell_flow.Prelude.Digits.read_digits cell_flow.Prelude.Digits.hex_value
seen_applies = refl

Reach-IsSound_example : IsSound confirmed_snapshot
Reach-IsSound_example =
    Reach-IsSound two_blocks {t = confirmed_snapshot}
      (step start (observes seen seen_result seen_applies refl))

-- A node that lags answers `pending`, and the recorded block still stands.
abbrev lagging : ChainObservation
lagging = record seen {
  status = ObservedStatus.pending;
  block_hash = none;
  block_number = none;
  tip_block_number = none;
  prior_commit_canonical = some true;
}

abbrev lagging_result : ApplyObservationResult
lagging_result = record {
  snapshot = confirmed_snapshot;
  event = record {
    kind = EventKind.chain_observed;
    from_overall = OverallStatus.confirmed;
    to_overall = OverallStatus.confirmed;
    at = "noon";
    reason =
        some
          "Non-committed RPC observation did not prove the previously committed block left the canonical chain";
    observation = lagging;
  };
  reorg_detected = false;
}

lagging_applies : apply_chain_observation confirmed_snapshot lagging ≡ ok lagging_result
unfolding apply_chain_observation reorg_against_prior_commit derive_overall_status
lagging_applies = refl

lagging_no_evidence : ¬ IsReorgEvidence confirmed_snapshot lagging
lagging_no_evidence (h, inl e) = cc
lagging_no_evidence (h, inr (e, t, n)) = cc

commit_kept_example :
    (lagging_result.snapshot.chain_status ≡ ChainStatus.committed)
    × (lagging_result.snapshot.committed_block_hash ≡ confirmed_snapshot.committed_block_hash)
    × (lagging_result.snapshot.committed_block_number ≡ confirmed_snapshot.committed_block_number)
    × (lagging_result.snapshot.confirmation_count ≡ confirmed_snapshot.confirmation_count)
    × (lagging_result.snapshot.workflow_status ≡ (
        if confirmed_snapshot.workflow_status == WorkflowStatus.confirmed
        then WorkflowStatus.confirmed
        else WorkflowStatus.reconciling))
    × (lagging_result.reorg_detected ≡ false)
commit_kept_example =
    commit_kept confirmed_snapshot lagging lagging_result lagging_applies refl (λ e. cc)
      lagging_no_evidence

-- The recorded height has another block.
abbrev moved : ChainObservation
moved = record lagging { prior_commit_canonical = some false }

abbrev reorged_snapshot : ExecutionSnapshot
reorged_snapshot = record confirmed_snapshot {
  chain_status = ChainStatus.pending;
  workflow_status = WorkflowStatus.reorged;
  confirmation_count = 0;
  committed_block_hash = none;
  committed_block_number = none;
}

abbrev moved_result : ApplyObservationResult
moved_result = record {
  snapshot = reorged_snapshot;
  event = record {
    kind = EventKind.reorg_detected;
    from_overall = OverallStatus.confirmed;
    to_overall = OverallStatus.reorged;
    at = "noon";
    reason =
        some "Previously committed transaction is no longer observed in the same canonical block";
    observation = moved;
  };
  reorg_detected = true;
}

moved_applies : apply_chain_observation confirmed_snapshot moved ≡ ok moved_result
unfolding apply_chain_observation reorg_against_prior_commit derive_overall_status
moved_applies = refl

confirmation_lost_example :
    IsReorgEvidence confirmed_snapshot moved
    ⊎ ((moved.status ≡ ObservedStatus.committed)
        × (is_confirmation_satisfied two_blocks ChainStatus.committed
              (compute_confirmation_count moved.block_number moved.tip_block_number)
            ≡ false))
confirmation_lost_example =
    confirmation_lost confirmed_snapshot moved moved_result moved_applies refl refl (λ e. cc)

observe_all_run : observe_all (initial_snapshot two_blocks) (seen ∷ []) ≡ ok confirmed_snapshot
unfolding observe_all apply_chain_observation initial_snapshot reorg_against_prior_commit
    derive_overall_status is_confirmation_satisfied compute_confirmation_count confirmation_depth
    parse_hex_block_number parse_hex_codes cell_flow.Prelude.Digits.read_digits
    cell_flow.Prelude.Digits.hex_value
observe_all_run = refl

confirmed_needs_commit_example : Any (Confirms two_blocks) (seen ∷ [])
confirmed_needs_commit_example =
    confirmed_needs_commit two_blocks (seen ∷ []) confirmed_snapshot observe_all_run refl

overall_confirmed_example : (derive_overall_status confirmed_snapshot ≡ OverallStatus.confirmed) ↔ (
    (confirmed_snapshot.workflow_status ≡ WorkflowStatus.confirmed)
    × (confirmed_snapshot.chain_status ≢ ChainStatus.rejected))
overall_confirmed_example = overall_confirmed confirmed_snapshot

abbrev sent : ExecutionSnapshot
sent = record confirmed_snapshot {
  submission_status = SubmissionStatus.broadcasting;
  chain_status = ChainStatus.unobserved;
  workflow_status = WorkflowStatus.idle;
}

abbrev lost : ExecutionSnapshot
lost = record sent { submission_status = SubmissionStatus.submission_unknown }

sent-lost : update_submission sent SubmissionStatus.submission_unknown ≡ ok lost
unfolding update_submission
sent-lost = refl

update_submission_sound_example :
    IsOpen sent
    × (sent.submission_status ⟶ SubmissionStatus.submission_unknown)
    × (lost ≡ record sent { submission_status = SubmissionStatus.submission_unknown })
update_submission_sound_example =
    update_submission_sound sent lost SubmissionStatus.submission_unknown sent-lost

sent-IsOpen : IsOpen sent
sent-IsOpen = record { unconflicted = λ e. cc; unexpired = λ e. cc; unrejected = λ e. cc }

update_submission_complete_example :
    update_submission sent SubmissionStatus.submission_unknown
    ≡ ok (record sent { submission_status = SubmissionStatus.submission_unknown })
update_submission_complete_example =
    update_submission_complete sent SubmissionStatus.submission_unknown sent-IsOpen lose

update_all_run : update_all sent (SubmissionStatus.submission_unknown ∷ []) ≡ ok lost
unfolding update_all update_submission
update_all_run = refl
