-- ===== src/Reconcile/Decide/Total.antt =====
-- A reconciliation of a running intent comes to a decision, whatever it observed.
use cell_flow.Prelude.{◌≡◌, ◌≢◌, Bool, String, arith, Bool-cases, inl, inr}
use cell_flow.Core.Types.{ChainObservation}
use cell_flow.Core.Errors.{Result, CellFlowError, ok, err, Result-cases}
use cell_flow.Core.Observation.{set_workflow_status}
use cell_flow.Core.Observation.Trace.{IsRunning, apply_total}
use cell_flow.Rpc.Observe.{RpcObservationBundle}
use cell_flow.Store.Rows.{IntentAggregate, snapshot_from_execution}
use cell_flow.Reconcile.Assess.{Assessment}
use cell_flow.Reconcile.Draft.{Context, Draft}
use cell_flow.Reconcile.Judge.{judged_draft}
use cell_flow.Reconcile.Judge.Finality.{judged_total}
use cell_flow.Reconcile.Decide.{Outcome, must_check, with_assessment, check_cells, outcome, decide}

assessment_total :
    (x : Context) (o : ChainObservation) (v : Assessment) (d : Draft) (e : CellFlowError)
    → with_assessment x o v d ≢ err e
unfolding with_assessment set_workflow_status
assessment_total x o v d e = ground arith

checks_total :
    (x : Context) (g : IntentAggregate) (tx_hash : String) (b : RpcObservationBundle) (reorg : Bool)
    (d : Draft) (e : CellFlowError)
    → check_cells x g tx_hash b reorg d ≢ err e
unfolding check_cells
checks_total x g tx_hash b reorg d e h = elim (Bool-cases (must_check g reorg d)) [
  | inl y ↦ assessment_total x b.observation _ d e (rw y at h)
  | inr n ↦ cc (rw n at h)
]

total {ℓ} : {A : Type ℓ} (m : Result A) → ((e : CellFlowError) → m ≢ err e) → (a : A) × (m ≡ ok a)
total m n = elim (Result-cases m) [ inl (e, h) ↦ absurd (n e h) | inr found ↦ found ]

-- A reconciliation after a successful observation decides what to write for every intent that is
-- neither CONFLICTED nor EXPIRED, whatever the nodes answer.
pub decide_total :
    (x : Context) (g : IntentAggregate) (tx_hash : String) (b : RpcObservationBundle)
    → IsRunning (snapshot_from_execution g.execution)
    → (out : Outcome) × (decide x g tx_hash b ≡ ok out)
unfolding decide
decide_total x g tx_hash b running =
    let (applied, a, _) = apply_total (snapshot_from_execution g.execution) b.observation running in
    let (d, j) =
      total (judged_draft x g b.observation b.rpc_result b.input_inspection applied)
        (judged_total x g b.observation b.rpc_result b.input_inspection applied) in
    let (k, c) =
      total (check_cells x g tx_hash b applied.reorg_detected d)
        (checks_total x g tx_hash b applied.reorg_detected d) in
    (outcome x g b.observation applied k, rw (a, j, c))
