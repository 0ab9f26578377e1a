-- ===== src/Core/Settlement/Guidance.antt =====
-- When the recommended action leaves the operator nothing to do.
use cell_flow.Prelude.{ℕ, ◌≡◌, ◌↔◌, true, false, Option, String, arith}
use cell_flow.Json.{Json}
use cell_flow.Core.Status.{WorkflowStatus, ConflictType}
use cell_flow.Core.Types.{RecommendedAction, ExecutionSnapshot}
use cell_flow.Core.Settlement.{status_is, is_settlement_ready, derive_recommended_action}

-- For a confirmed workflow no action is recommended exactly when settlement is ready and the
-- assertions have not failed.
pub confirmed_no_action :
    (s : ExecutionSnapshot) (c : Option ConflictType) (a : Option String) (d e : Json)
    (required : ℕ)
    → s.workflow_status ≡ WorkflowStatus.confirmed
    → (derive_recommended_action s c a d e required ≡ RecommendedAction.no_action)
      ↔ ((is_settlement_ready s a required c ≡ true) × (status_is a "FAILED" ≡ false))
unfolding derive_recommended_action is_settlement_ready
confirmed_no_action s c a d e required h = ground arith
