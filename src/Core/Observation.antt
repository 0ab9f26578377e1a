-- ===== src/Core/Observation.antt =====
-- packages/core/src/state-machine.ts: `applyChainObservation` and its helpers, `initialSnapshot`,
-- `setWorkflowStatus` and `supersedeNodeRejectionFromChainEvidence`.
pub mod Soundness
pub mod Reorg
pub mod Trace
use cell_flow.Prelude.{
  ℕ, Bool, true, false, not, ◌&&◌, ◌||◌, Option, none, some, String, if◌then◌else◌, ◌==◌, string_eq,
}
use cell_flow.Core.Status.{
  SubmissionStatus, ChainStatus, WorkflowStatus, workflow_eq, chain_eq, submission_eq,
}
use cell_flow.Core.Types.{
  ConfirmationPolicy, ExecutionSnapshot, ObservedStatus, to_chain, ChainObservation, EventKind,
  OverallStatus, TransitionEvent, ApplyObservationResult,
}
use cell_flow.Core.Errors.{Result, ok, err}
use cell_flow.Core.Confirmation.{compute_confirmation_count, is_confirmation_satisfied}
use cell_flow.Core.Settlement.{truthy, derive_overall_status}
use cell_flow.Core.Submission.{transition_invalid}

unfoldable pub initial_snapshot : ConfirmationPolicy → ExecutionSnapshot
initial_snapshot policy = record {
  submission_status = SubmissionStatus.not_submitted;
  chain_status = ChainStatus.unobserved;
  workflow_status = WorkflowStatus.idle;
  confirmation_policy = policy;
  confirmation_count = 0;
  committed_block_hash = none;
  committed_block_number = none;
  rejection_reason = none;
}

abbrev pub is_committed : ObservedStatus → Bool
is_committed ObservedStatus.committed = true
is_committed _ = false

-- `observation.priorCommitCanonical === false`.
abbrev disproved : Option Bool → Bool
disproved none = false
disproved (some b) = not b

-- `a !== b` for texts that may be absent.
abbrev pub differs : Option String → Option String → Bool
differs (some a) (some b) = not (a == b)
differs none none = false
differs _ _ = true

unfoldable pub reorg_against_prior_commit : ExecutionSnapshot → ChainObservation → Bool
reorg_against_prior_commit s o =
    if not (truthy s.committed_block_hash)
    then false
    else if disproved o.prior_commit_canonical
    then true
    else if is_committed o.status
    then truthy o.block_hash && differs o.block_hash s.committed_block_hash
    else false

-- `value ? { field: value } : {}` over an earlier field.
abbrev pub or_keep : Option String → Option String → Option String
or_keep next old = if truthy next then next else old

-- The snapshot before the branches on the observed status.
observed_base : ExecutionSnapshot → ChainObservation → ExecutionSnapshot
observed_base s o = record s {
  chain_status = to_chain o.status;
  confirmation_count =
      if is_committed o.status
      then compute_confirmation_count o.block_number o.tip_block_number
      else 0;
  rejection_reason = or_keep o.rejection_reason s.rejection_reason;
}

committed_snapshot : ExecutionSnapshot → ChainObservation → ExecutionSnapshot
unfolding observed_base
committed_snapshot s o =
    let next = observed_base s o in
    record next {
      committed_block_hash = or_keep o.block_hash next.committed_block_hash;
      committed_block_number = or_keep o.block_number next.committed_block_number;
      workflow_status =
          if is_confirmation_satisfied s.confirmation_policy ChainStatus.committed
            next.confirmation_count
          then WorkflowStatus.confirmed
          else WorkflowStatus.waiting_confirmations;
    }

-- The next snapshot, where the observation is not held back.
advanced_snapshot : ExecutionSnapshot → ChainObservation → Bool → ExecutionSnapshot
unfolding committed_snapshot observed_base
advanced_snapshot s o reorg = elim o.status [
  | ObservedStatus.committed ↦ committed_snapshot s o
  | ObservedStatus.rejected ↦ record (observed_base s o) { workflow_status = WorkflowStatus.idle }
  | _ ↦
      if reorg
      then record (observed_base s o) {
        committed_block_hash = none;
        committed_block_number = none;
        workflow_status = WorkflowStatus.reorged;
      }
      else record (observed_base s o) { workflow_status = WorkflowStatus.reconciling }
]

preserved_snapshot : ExecutionSnapshot → ExecutionSnapshot
preserved_snapshot s = record s {
  workflow_status =
      if s.workflow_status == WorkflowStatus.confirmed
      then WorkflowStatus.confirmed
      else WorkflowStatus.reconciling;
}

-- The reasons that the events carry.
abbrev pub contradictory_rejection : String
contradictory_rejection =
    "Contradictory RPC rejection did not override a previously committed transaction whose recorded block remains canonical"

abbrev pub non_committed_observation : String
non_committed_observation =
    "Non-committed RPC observation did not prove the previously committed block left the canonical chain"

abbrev pub reorg_reason : String
reorg_reason = "Previously committed transaction is no longer observed in the same canonical block"

abbrev is_rejected : ObservedStatus → Bool
is_rejected ObservedStatus.rejected = true
is_rejected _ = false

preserve : ExecutionSnapshot → ChainObservation → ApplyObservationResult
unfolding preserved_snapshot
preserve s o = record {
  snapshot = preserved_snapshot s;
  event = record {
    kind = EventKind.chain_observed;
    from_overall = derive_overall_status s;
    to_overall = derive_overall_status (preserved_snapshot s);
    at = o.observed_at;
    reason =
        some (if is_rejected o.status then contradictory_rejection else non_committed_observation);
    observation = o;
  };
  reorg_detected = false;
}

event_kind : Bool → ExecutionSnapshot → EventKind
event_kind reorg next =
    if reorg
    then EventKind.reorg_detected
    else if next.workflow_status == WorkflowStatus.confirmed
    then EventKind.confirmed
    else EventKind.chain_observed

advance : ExecutionSnapshot → ChainObservation → Bool → ApplyObservationResult
unfolding advanced_snapshot event_kind
advance s o reorg =
    let next = advanced_snapshot s o reorg in
    record {
      snapshot = next;
      event = record {
        kind = event_kind reorg next;
        from_overall = derive_overall_status s;
        to_overall = derive_overall_status next;
        at = o.observed_at;
        reason = if reorg then some reorg_reason else none;
        observation = o;
      };
      reorg_detected = reorg;
    }

-- Whether a recorded commit is kept against the observation.
held_back : ExecutionSnapshot → ChainObservation → Bool → Bool
held_back s o reorg =
    s.chain_status == ChainStatus.committed && not (is_committed o.status) && not reorg

unfoldable pub apply_chain_observation :
    ExecutionSnapshot → ChainObservation → Result ApplyObservationResult
unfolding preserve advance held_back
apply_chain_observation s o =
    if s.workflow_status == WorkflowStatus.conflicted || s.workflow_status == WorkflowStatus.expired
    then err transition_invalid
    else let reorg = reorg_against_prior_commit s o in
      if held_back s o reorg then ok (preserve s o) else ok (advance s o reorg)

-- The branch that promotes a rejected submission when the chain shows the transaction.
abbrev pub shows_transaction : ObservedStatus → Bool
shows_transaction ObservedStatus.pending = true
shows_transaction ObservedStatus.proposed = true
shows_transaction ObservedStatus.committed = true
shows_transaction _ = false

unfoldable pub supersede_node_rejection : ExecutionSnapshot → ObservedStatus → ExecutionSnapshot
supersede_node_rejection s observed =
    if not (s.submission_status == SubmissionStatus.node_rejected)
    then s
    else if not (shows_transaction observed)
    then s
    else record s { submission_status = SubmissionStatus.submitted }

unfoldable pub set_workflow_status : ExecutionSnapshot → WorkflowStatus → Result ExecutionSnapshot
set_workflow_status s status =
    if status == WorkflowStatus.confirmed && not (s.chain_status == ChainStatus.committed)
    then err transition_invalid
    else ok (record s { workflow_status = status })
