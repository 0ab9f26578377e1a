-- ===== src/Reconcile/Outage/Kept.antt =====
-- What an outage does not change.
use cell_flow.Prelude.{◌≡◌, ◌≢◌, String, refl, sym, ap, ◌∙◌, inl, inr}
use cell_flow.Core.Status.{ChainStatus, WorkflowStatus}
use cell_flow.Core.Types.{ExecutionSnapshot, ObservedStatus, ApplyObservationResult}
use cell_flow.Core.Errors.{ok, >>=-eq-ok, ok-injective}
use cell_flow.Core.Observation.{apply_chain_observation}
use cell_flow.Core.Observation.Reorg.{IsReorgEvidence, commit_kept}
use cell_flow.Store.Rows.{IntentAggregate, snapshot_from_execution}
use cell_flow.Reconcile.Draft.{Context}
use cell_flow.Reconcile.Decide.{Outcome}
use cell_flow.Reconcile.Outage.{failure_observation, decide_unavailable}

unavailable_applied :
    (x : Context) (g : IntentAggregate) (message : String) (out : Outcome)
    → decide_unavailable x g message ≡ ok out
    → (applied : ApplyObservationResult) × (apply_chain_observation
          (snapshot_from_execution g.execution)
          (failure_observation x)
        ≡ ok applied)
      × (out.apply.snapshot ≡ applied.snapshot)
unfolding decide_unavailable
unavailable_applied x g message out h =
    let (applied, a, k) = >>=-eq-ok (apply_chain_observation _ _) _ h in
    (applied, a, ap (λ (o : Outcome). o.apply.snapshot) (sym (ok-injective _ out k)))

no_evidence : (x : Context) (s : ExecutionSnapshot) → ¬ IsReorgEvidence s (failure_observation x)
unfolding failure_observation
no_evidence x s (t, inl e) = cc
no_evidence x s (t, inr (e, u, n)) = cc

unknown_status : (x : Context) → (failure_observation x).status ≢ ObservedStatus.committed
unfolding failure_observation
unknown_status x e = cc

-- The row's columns as the snapshot has them.
row_statuses :
    (g : IntentAggregate)
    → ((snapshot_from_execution g.execution).chain_status ≡ g.execution.chain_status)
      × ((snapshot_from_execution g.execution).workflow_status ≡ g.execution.workflow_status)
unfolding snapshot_from_execution
row_statuses g = (refl, refl)

-- An RPC outage does not take a confirmation away: a confirmed and committed execution is written
-- back as confirmed and committed.
pub outage_keeps_confirmation :
    (x : Context) (g : IntentAggregate) (message : String) (out : Outcome)
    → decide_unavailable x g message ≡ ok out
    → g.execution.chain_status ≡ ChainStatus.committed
    → g.execution.workflow_status ≡ WorkflowStatus.confirmed
    → (out.apply.snapshot.chain_status ≡ ChainStatus.committed)
      × (out.apply.snapshot.workflow_status ≡ WorkflowStatus.confirmed)
outage_keeps_confirmation x g message out h c w =
    let (applied, a, same) = unavailable_applied x g message out h in
    let (chain, flow) = row_statuses g in
    let (kept, _, _, _, status, _) =
      commit_kept (snapshot_from_execution g.execution) (failure_observation x) applied a
        (chain ∙ c) (unknown_status x) (no_evidence x (snapshot_from_execution g.execution)) in
    (rw same kept, rw same (status ∙ rw (flow ∙ w) refl))
