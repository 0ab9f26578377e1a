-- ===== src/Core/Submission.antt =====
-- packages/core/src/state-machine.ts: `updateSubmission`, the submission axis.
pub mod Graph
use cell_flow.Prelude.{
  ℕ, Bool, true, false, not, ◌&&◌, ◌||◌, Option, none, some, if◌then◌else◌, ◌==◌, ltb,
}
use cell_flow.Core.Status.{
  SubmissionStatus, ChainStatus, WorkflowStatus, submission_eq, workflow_eq, chain_eq,
}
use cell_flow.Core.Types.{ExecutionSnapshot}
use cell_flow.Core.Errors.{ErrorCode, CellFlowError, Result, ok, err, failure}

abbrev pub transition_invalid : CellFlowError
transition_invalid = failure ErrorCode.transition_invalid 409

-- `order.indexOf(status)`; `none` is -1.
order_index : SubmissionStatus → Option ℕ
order_index SubmissionStatus.not_submitted = some 0
order_index SubmissionStatus.prepared = some 1
order_index SubmissionStatus.broadcasting = some 2
order_index SubmissionStatus.submission_unknown = some 3
order_index SubmissionStatus.submitted = some 4
order_index SubmissionStatus.node_rejected = none

-- `a < b` on indices.
index_lt : Option ℕ → Option ℕ → Bool
index_lt none none = false
index_lt none (some b) = true
index_lt (some a) none = false
index_lt (some a) (some b) = ltb a b

-- The part for a new status other than NODE_REJECTED.
advance : ExecutionSnapshot → SubmissionStatus → Result ExecutionSnapshot
unfolding order_index index_lt
advance s next =
    let allowed_ambiguous_recovery =
      s.submission_status == SubmissionStatus.submission_unknown
      && next == SubmissionStatus.submitted in
    if index_lt (order_index next) (order_index s.submission_status)
      && not allowed_ambiguous_recovery
    then err transition_invalid
    else ok (record s { submission_status = next })

-- The part for NODE_REJECTED.
record_rejection : ExecutionSnapshot → Result ExecutionSnapshot
record_rejection s =
    if s.submission_status == SubmissionStatus.prepared
      || s.submission_status == SubmissionStatus.broadcasting
      || s.submission_status == SubmissionStatus.submission_unknown
    then ok (record s { submission_status = SubmissionStatus.node_rejected })
    else err transition_invalid

unfoldable pub update_submission : ExecutionSnapshot → SubmissionStatus → Result ExecutionSnapshot
unfolding advance record_rejection
update_submission s next =
    if s.workflow_status == WorkflowStatus.conflicted || s.workflow_status == WorkflowStatus.expired
    then err transition_invalid
    else if s.chain_status == ChainStatus.rejected
    then err transition_invalid
    else if s.submission_status == SubmissionStatus.node_rejected
    then if next == SubmissionStatus.node_rejected then ok s else err transition_invalid
    else if next == SubmissionStatus.node_rejected
    then record_rejection s
    else advance s next
