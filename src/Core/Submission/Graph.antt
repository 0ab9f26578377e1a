-- ===== src/Core/Submission/Graph.antt =====
-- The submission axis as a diagram, and every list of updates over it.
use cell_flow.Prelude.{ℕ, ◌<◌, ◌⊎◌, ◌≡◌, ◌≢◌, refl, List, [], ◌∷◌, arith, inl, inr}
use cell_flow.Core.Status.{SubmissionStatus, ChainStatus, WorkflowStatus}
use cell_flow.Core.Types.{ExecutionSnapshot}
use cell_flow.Core.Errors.{Result, ok, ◌>>=◌, >>=-eq-ok}
use cell_flow.Core.Submission.{update_submission}

-- The lifecycle of a submission. An unknown outcome may be resolved either way; a submitted
-- transaction and a rejected one are ends.
infix 40 ◌⟶◌
pub data ◌⟶◌ : SubmissionStatus → SubmissionStatus → Type 0 where
  stay : (s : SubmissionStatus) → s ⟶ s
  prepare : SubmissionStatus.not_submitted ⟶ SubmissionStatus.prepared
  skip_to_broadcast : SubmissionStatus.not_submitted ⟶ SubmissionStatus.broadcasting
  track_unknown : SubmissionStatus.not_submitted ⟶ SubmissionStatus.submission_unknown
  track_submitted : SubmissionStatus.not_submitted ⟶ SubmissionStatus.submitted
  broadcast : SubmissionStatus.prepared ⟶ SubmissionStatus.broadcasting
  prepared_unknown : SubmissionStatus.prepared ⟶ SubmissionStatus.submission_unknown
  prepared_submitted : SubmissionStatus.prepared ⟶ SubmissionStatus.submitted
  lose : SubmissionStatus.broadcasting ⟶ SubmissionStatus.submission_unknown
  acknowledge : SubmissionStatus.broadcasting ⟶ SubmissionStatus.submitted
  recover : SubmissionStatus.submission_unknown ⟶ SubmissionStatus.submitted
  reject_prepared : SubmissionStatus.prepared ⟶ SubmissionStatus.node_rejected
  reject_broadcast : SubmissionStatus.broadcasting ⟶ SubmissionStatus.node_rejected
  reject_unknown : SubmissionStatus.submission_unknown ⟶ SubmissionStatus.node_rejected

ruleset edges = (
  stay, prepare, skip_to_broadcast, track_unknown, track_submitted, broadcast, prepared_unknown,
  prepared_submitted, lose, acknowledge, recover, reject_prepared, reject_broadcast, reject_unknown,
)

-- Where the submission axis is still open.
pub record IsOpen (s : ExecutionSnapshot) : Type 0 where
  pub unconflicted : s.workflow_status ≢ WorkflowStatus.conflicted
  pub unexpired : s.workflow_status ≢ WorkflowStatus.expired
  pub unrejected : s.chain_status ≢ ChainStatus.rejected

update_submission-IsOpen :
    (s t : ExecutionSnapshot) (next : SubmissionStatus) → update_submission s next ≡ ok t → IsOpen s
unfolding update_submission
update_submission-IsOpen s t next h = ground arith

update_submission-⟶ :
    (s t : ExecutionSnapshot) (next : SubmissionStatus)
    → update_submission s next ≡ ok t
    → s.submission_status ⟶ next
unfolding update_submission
update_submission-⟶ s t next h = grind (arith, edges)

update_submission_frame :
    (s t : ExecutionSnapshot) (next : SubmissionStatus)
    → update_submission s next ≡ ok t
    → t ≡ record s { submission_status = next }
unfolding update_submission
update_submission_frame s t next h = ground arith

accepts :
    {a b : SubmissionStatus}
    → a ⟶ b
    → (s : ExecutionSnapshot) → s.submission_status ≡ a
    → IsOpen s
    → update_submission s b ≡ ok (record s { submission_status = b })
unfolding update_submission
accepts (stay SubmissionStatus.not_submitted) s e v = ground arith
accepts (stay _) s e v = ground arith
accepts prepare s e v = ground arith
accepts skip_to_broadcast s e v = ground arith
accepts track_unknown s e v = ground arith
accepts track_submitted s e v = ground arith
accepts broadcast s e v = ground arith
accepts prepared_unknown s e v = ground arith
accepts prepared_submitted s e v = ground arith
accepts lose s e v = ground arith
accepts acknowledge s e v = ground arith
accepts recover s e v = ground arith
accepts reject_prepared s e v = ground arith
accepts reject_broadcast s e v = ground arith
accepts reject_unknown s e v = ground arith

-- An accepted update follows the diagram from an open snapshot and changes the submission status
-- alone.
pub update_submission_sound :
    (s t : ExecutionSnapshot) (next : SubmissionStatus)
    → update_submission s next ≡ ok t
    → IsOpen s × (s.submission_status ⟶ next) × (t ≡ record s { submission_status = next })
update_submission_sound s t next h = (
  update_submission-IsOpen s t next h,
  update_submission-⟶ s t next h,
  update_submission_frame s t next h,
)

-- Every edge of the diagram is accepted from an open snapshot.
pub update_submission_complete :
    (s : ExecutionSnapshot) (next : SubmissionStatus)
    → IsOpen s
    → s.submission_status ⟶ next
    → update_submission s next ≡ ok (record s { submission_status = next })
update_submission_complete s next v e = accepts e s refl v

-- How far along its lifecycle a submission is.
abbrev pub progress : SubmissionStatus → ℕ
progress SubmissionStatus.not_submitted = 0
progress SubmissionStatus.prepared = 1
progress SubmissionStatus.broadcasting = 2
progress SubmissionStatus.submission_unknown = 3
progress SubmissionStatus.submitted = 4
progress SubmissionStatus.node_rejected = 4

progress-⟶ : {a b : SubmissionStatus} → a ⟶ b → (a ≡ b) ⊎ (progress a < progress b)
progress-⟶ (stay s) = inl refl
progress-⟶ prepare = inr (omega arith)
progress-⟶ skip_to_broadcast = inr (omega arith)
progress-⟶ track_unknown = inr (omega arith)
progress-⟶ track_submitted = inr (omega arith)
progress-⟶ broadcast = inr (omega arith)
progress-⟶ prepared_unknown = inr (omega arith)
progress-⟶ prepared_submitted = inr (omega arith)
progress-⟶ lose = inr (omega arith)
progress-⟶ acknowledge = inr (omega arith)
progress-⟶ recover = inr (omega arith)
progress-⟶ reject_prepared = inr (omega arith)
progress-⟶ reject_broadcast = inr (omega arith)
progress-⟶ reject_unknown = inr (omega arith)

-- A list of updates, of which every one is accepted.
unfoldable pub update_all : ExecutionSnapshot → List SubmissionStatus → Result ExecutionSnapshot
update_all s [] = ok s
update_all s (next ∷ rest) = update_submission s next >>= λ t. update_all t rest

-- Over any accepted list of updates the submission keeps its status or makes strict progress, and
-- the chain and workflow axes keep theirs.
pub update_all_forward :
    (s t : ExecutionSnapshot) (updates : List SubmissionStatus)
    → update_all s updates ≡ ok t
    → ((s.submission_status ≡ t.submission_status)
        ⊎ (progress s.submission_status < progress t.submission_status))
      × (t.chain_status ≡ s.chain_status)
      × (t.workflow_status ≡ s.workflow_status)
unfolding update_all
update_all_forward s t [] h = ground arith
update_all_forward s t (next ∷ rest) h =
    let (u, first, later) = >>=-eq-ok (update_submission s next) (λ t. update_all t rest) h in
    let (v, edge, frame) = update_submission_sound s u next first in
    ground (arith, progress-⟶ edge, update_all_forward u t rest later)
