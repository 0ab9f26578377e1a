-- ===== src/Core/Observation/Soundness.antt =====
-- What holds of a snapshot between two transitions.
use cell_flow.Core.Submission.Graph.{update_submission_sound}
use cell_flow.Prelude.{◌≡◌, ◌≢◌, true, none, arith, ◌⊎◌, subst, sym}
use cell_flow.Core.Status.{SubmissionStatus, ChainStatus, WorkflowStatus}
use cell_flow.Core.Types.{
  ConfirmationPolicy, ExecutionSnapshot, ChainObservation, ApplyObservationResult, ObservedStatus,
}
use cell_flow.Core.Errors.{ok}
use cell_flow.Core.Confirmation.{is_confirmation_satisfied}
use cell_flow.Core.Submission.{update_submission}
use cell_flow.Core.Observation.{
  initial_snapshot, apply_chain_observation, set_workflow_status, supersede_node_rejection,
}

pub record IsSound (s : ExecutionSnapshot) : Type 0 where
  pub confirmed_on_chain :
      s.workflow_status ≡ WorkflowStatus.confirmed → s.chain_status ≡ ChainStatus.committed
  pub confirmed_deep :
      s.workflow_status ≡ WorkflowStatus.confirmed
      → is_confirmation_satisfied s.confirmation_policy ChainStatus.committed s.confirmation_count
        ≡ true
  pub counted_on_chain : s.chain_status ≢ ChainStatus.committed → s.confirmation_count ≡ 0
  pub reorged_forgets : s.workflow_status ≡ WorkflowStatus.reorged → s.committed_block_hash ≡ none

pub initial_snapshot-IsSound : (p : ConfirmationPolicy) → IsSound (initial_snapshot p)
unfolding initial_snapshot
initial_snapshot-IsSound p = ground arith

-- The transitions of a snapshot: an observation, a submission update, a rejection that the chain
-- supersedes, and a workflow status that is set directly, as the program sets the end states.
pub data Step (s t : ExecutionSnapshot) : Type 0 where
  observes :
      (o : ChainObservation) (r : ApplyObservationResult)
      → apply_chain_observation s o ≡ ok r
      → t ≡ r.snapshot
      → Step s t
  submits : (next : SubmissionStatus) → update_submission s next ≡ ok t → Step s t
  supersedes : (o : ChainObservation) → t ≡ supersede_node_rejection s o.status → Step s t
  marks :
      (w : WorkflowStatus)
      → (w ≡ WorkflowStatus.conflicted) ⊎ (w ≡ WorkflowStatus.expired)
      → set_workflow_status s w ≡ ok t
      → Step s t

-- Any number of transitions.
pub data Reach (s : ExecutionSnapshot) : ExecutionSnapshot → Type 0 where
  start : Reach s s
  step : {t u : ExecutionSnapshot} → Reach s t → Step t u → Reach s u

observes-IsSound :
    (s : ExecutionSnapshot) (o : ChainObservation) (r : ApplyObservationResult)
    → IsSound s
    → apply_chain_observation s o ≡ ok r
    → IsSound r.snapshot
unfolding apply_chain_observation
observes-IsSound s o r v h = ground arith

resubmitted-IsSound :
    (s : ExecutionSnapshot) (x : SubmissionStatus)
    → IsSound s
    → IsSound (record s { submission_status = x })
resubmitted-IsSound s x v = record {
  confirmed_on_chain = v.confirmed_on_chain;
  confirmed_deep = v.confirmed_deep;
  counted_on_chain = v.counted_on_chain;
  reorged_forgets = v.reorged_forgets;
}

superseded-IsSound :
    (s : ExecutionSnapshot) (o : ObservedStatus)
    → IsSound s
    → IsSound (supersede_node_rejection s o)
unfolding supersede_node_rejection
superseded-IsSound s o v = ground arith

marked-IsSound :
    (s t : ExecutionSnapshot) (w : WorkflowStatus)
    → IsSound s
    → (w ≡ WorkflowStatus.conflicted) ⊎ (w ≡ WorkflowStatus.expired)
    → set_workflow_status s w ≡ ok t
    → IsSound t
unfolding set_workflow_status
marked-IsSound s t w v k h = ground arith

pub Step-IsSound : {s t : ExecutionSnapshot} → Step s t → IsSound s → IsSound t
Step-IsSound {s} (observes o r h e) v = subst IsSound (sym e) (observes-IsSound s o r v h)
Step-IsSound {s} {t} (submits next h) v =
    subst IsSound (sym (update_submission_sound s t next h).2) (resubmitted-IsSound s next v)
Step-IsSound {s} (supersedes o e) v = subst IsSound (sym e) (superseded-IsSound s o.status v)
Step-IsSound {s} {t} (marks w k h) v = marked-IsSound s t w v k h

-- Every snapshot that the transitions reach from the initial one is sound: a confirmed one is
-- committed at the depth of its policy, one that is not committed counts no confirmations, and a
-- reorged one has forgotten its block.
pub Reach-IsSound :
    (p : ConfirmationPolicy) {t : ExecutionSnapshot} → Reach (initial_snapshot p) t → IsSound t
Reach-IsSound p start = initial_snapshot-IsSound p
Reach-IsSound p (step r s) = Step-IsSound s (Reach-IsSound p r)
