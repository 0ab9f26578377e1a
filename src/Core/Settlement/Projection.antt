-- ===== src/Core/Settlement/Projection.antt =====
-- What the overall status shows of the three axes.
use cell_flow.Prelude.{◌≡◌, ◌≢◌, ◌↔◌, ◌⊎◌, arith}
use cell_flow.Core.Status.{SubmissionStatus, ChainStatus, WorkflowStatus}
use cell_flow.Core.Types.{OverallStatus, ExecutionSnapshot}
use cell_flow.Core.Settlement.{derive_overall_status}

-- The overall status is CONFIRMED exactly when the workflow is confirmed and the chain has not
-- rejected the transaction.
pub overall_confirmed :
    (s : ExecutionSnapshot)
    → (derive_overall_status s ≡ OverallStatus.confirmed)
      ↔ ((s.workflow_status ≡ WorkflowStatus.confirmed) × (s.chain_status ≢ ChainStatus.rejected))
unfolding derive_overall_status
overall_confirmed s = ground arith

-- The overall status is CREATED only where nothing was prepared, nothing was observed and no
-- reconciliation, reorg or end state is recorded.
pub overall_created :
    (s : ExecutionSnapshot)
    → derive_overall_status s ≡ OverallStatus.created
    → (s.submission_status ≡ SubmissionStatus.not_submitted)
      × (s.chain_status ≡ ChainStatus.unobserved)
      × ((s.workflow_status ≡ WorkflowStatus.idle)
          ⊎ (s.workflow_status ≡ WorkflowStatus.waiting_confirmations))
unfolding derive_overall_status
overall_created s h = ground arith
