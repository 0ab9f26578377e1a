-- ===== src/Reconcile/Decide/Settled.antt =====
-- What a reconciliation that settles an intent rests on.
use cell_flow.Prelude.{
  ◌<◌, ◌≡◌, ◌⊎◌, true, false, Bool, some, String, arith, ap, ◌∙◌, Bool-cases, inl, inr, length,
  is_some, All,
}
use cell_flow.Core.Status.{WorkflowStatus}
use cell_flow.Core.Types.{ChainObservation}
use cell_flow.Core.Errors.{ok, ok-injective}
use cell_flow.Core.Settlement.{status_is, is_settlement_ready}
use cell_flow.Core.Observation.{set_workflow_status}
use cell_flow.Assertions.{RpcTransaction}
use cell_flow.Rpc.Observe.{RpcObservationBundle}
use cell_flow.Store.Rows.{IntentAggregate}
use cell_flow.Reconcile.Schedule.Bounds.{reverify_iff}
use cell_flow.Reconcile.Assess.{AssessmentStatus, Assessment}
use cell_flow.Reconcile.Assess.Verdict.{Passed, verified_passes}
use cell_flow.Reconcile.Draft.{Context, Draft}
use cell_flow.Reconcile.Decide.{
  Checked, unchecked, must_check, with_assessment, transaction_of, check_cells, checked_ready,
  reverify_input,
}

-- The settlement of an earlier reconciliation, in the same block.
pub record IsSettledBefore (g : IntentAggregate) (d : Draft) : Type 0 where
  pub settled : is_some g.execution.settlement_ready_at ≡ true
  pub was_verified : status_is g.execution.assertion_status "VERIFIED" ≡ true
  pub same_block : g.execution.committed_block_hash ≡ d.snapshot.committed_block_hash

assessment_verified :
    (x : Context) (o : ChainObservation) (v : Assessment) (d : Draft) (k : Checked)
    → with_assessment x o v d ≡ ok k
    → status_is k.assertion_status "VERIFIED" ≡ true
    → v.status ≡ AssessmentStatus.verified
unfolding with_assessment set_workflow_status
assessment_verified x o v d k h q = ground arith

unchecked-IsSettledBefore :
    (g : IntentAggregate) (reorg : Bool) (d : Draft)
    → must_check g reorg d ≡ false
    → 0 < length g.intent.expected_cells
    → (unchecked g reorg d).draft.snapshot.workflow_status ≡ WorkflowStatus.confirmed
    → IsSettledBefore g d
unfolding must_check unchecked
unchecked-IsSettledBefore g reorg d m n w =
    let (a, b, c, e, f) = (reverify_iff (reverify_input g reorg d)).0 (ground arith) in
    record { settled = a; was_verified = b; same_block = f }

ready_parts :
    (g : IntentAggregate) (k : Checked)
    → checked_ready g k ≡ true
    → 0 < length g.intent.expected_cells
    → (k.draft.snapshot.workflow_status ≡ WorkflowStatus.confirmed)
      × (status_is k.assertion_status "VERIFIED" ≡ true)
unfolding checked_ready is_settlement_ready
ready_parts g k h n = ground arith

-- An intent that expects Cells is ready for settlement after its observation only if every
-- assertion passes against the transaction and the node now, or the intent was settled before with
-- its Cells verified in the very block that is still recorded.
pub ready_needs_cells :
    (x : Context) (g : IntentAggregate) (tx_hash : String) (b : RpcObservationBundle) (reorg : Bool)
    (d : Draft) (k : Checked)
    → check_cells x g tx_hash b reorg d ≡ ok k
    → checked_ready g k ≡ true
    → 0 < length g.intent.expected_cells
    → ((found : RpcTransaction) × (transaction_of b.rpc_result ≡ some found)
        × All (Passed x.client b.endpoint tx_hash found) g.intent.expected_cells)
      ⊎ IsSettledBefore g d
unfolding check_cells
ready_needs_cells x g tx_hash b reorg d k h r n =
    let (w, v) = ready_parts g k r n in
    elim (Bool-cases (must_check g reorg d)) [
      | inl y ↦ inl (
          verified_passes x.client b.endpoint tx_hash (transaction_of b.rpc_result)
            g.intent.expected_cells (assessment_verified x b.observation _ d k (rw y at h) v))
      | inr m ↦ inr (
          unchecked-IsSettledBefore g reorg d m n (
            ap (λ (q : Checked). q.draft.snapshot.workflow_status) (ok-injective _ k (rw m at h))
            ∙ w))
    ]
