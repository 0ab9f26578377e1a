-- ===== src/Reconcile/Decide/Recorded.antt =====
-- A reconciliation and the write of its outcome, together.
use cell_flow.Prelude.{
  ◌≡◌, ◌≢◌, false, Bool, Option, String, arith, eq_iff, refl, sym, ap, subst, ◌∙◌, Bool-cases, inl,
  inr,
}
use cell_flow.Core.Types.{ConfirmationPolicy, ChainObservation, ApplyObservationResult}
use cell_flow.Core.Errors.{ok, >>=-eq-ok, ok-injective}
use cell_flow.Core.Observation.{apply_chain_observation, set_workflow_status}
use cell_flow.Core.Observation.Trace.{policy_kept}
use cell_flow.Rpc.Observe.{RpcObservationBundle}
use cell_flow.Store.Rows.{IntentAggregate, ExecutionRecord, snapshot_from_execution}
use cell_flow.Store.Apply.{Rows, Draws, written, apply_snapshot}
use cell_flow.Store.Apply.Announcements.{IsAnnounced, IsReadFrom, apply_snapshot-IsAnnounced}
use cell_flow.Reconcile.Assess.{Assessment, evaluate_assertions, AssessmentStatus}
use cell_flow.Reconcile.Draft.{Context, Draft}
use cell_flow.Reconcile.Judge.{judged_draft}
use cell_flow.Reconcile.Judge.Quiet.{judged_draft-IsOrdinary}
use cell_flow.Reconcile.Decide.{
  Checked, Outcome, unchecked, must_check, transaction_of, check_cells, outcome, decide,
  with_assessment,
}
use cell_flow.Reconcile.Ordinary.{IsOrdinary, speaks}

with_assessment-IsOrdinary :
    (x : Context) (o : ChainObservation) (v : Assessment) (d : Draft) (k : Checked)
    (p : ConfirmationPolicy) (status : AssessmentStatus)
    → v.status ≡ status
    → IsOrdinary p d
    → with_assessment x o v d ≡ ok k
    → IsOrdinary p k.draft
unfolding with_assessment set_workflow_status
with_assessment-IsOrdinary x o v d k p AssessmentStatus.pending s w h =
    subst (λ q. IsOrdinary p q.draft) (ok-injective _ k (rw (with_assessment, s) at h)) w
with_assessment-IsOrdinary x o v d k p AssessmentStatus.verified s w h =
    subst (λ q. IsOrdinary p q.draft) (ok-injective _ k (rw (with_assessment, s) at h))
      (record { under_policy = w.under_policy; quiet = refl })
with_assessment-IsOrdinary x o v d k p AssessmentStatus.failed s w h =
    subst (λ q. IsOrdinary p q.draft) (ok-injective _ k (rw (with_assessment, s) at h))
      (record { under_policy = w.under_policy; quiet = refl })

quiet_kind : (k : String) → speaks k ≡ false → (k ≢ "SETTLEMENT_READY") × (k ≢ "SETTLEMENT_REVOKED")
quiet_kind k h = ground (arith, eq_iff k "SETTLEMENT_READY", eq_iff k "SETTLEMENT_REVOKED")

unchecked_draft : (g : IntentAggregate) (reorg : Bool) (d : Draft) → (unchecked g reorg d).draft ≡ d
unfolding unchecked
unchecked_draft g reorg d = ground arith

check_cells-IsOrdinary :
    (x : Context) (g : IntentAggregate) (tx_hash : String) (b : RpcObservationBundle) (reorg : Bool)
    (d : Draft) (k : Checked) (p : ConfirmationPolicy)
    → IsOrdinary p d
    → check_cells x g tx_hash b reorg d ≡ ok k
    → IsOrdinary p k.draft
unfolding check_cells
check_cells-IsOrdinary x g tx_hash b reorg d k p v h = elim (Bool-cases (must_check g reorg d)) [
  | inl y ↦
      with_assessment-IsOrdinary x b.observation
        (evaluate_assertions x.client b.endpoint tx_hash (transaction_of b.rpc_result)
          g.intent.expected_cells)
        d k p
        (evaluate_assertions x.client b.endpoint tx_hash (transaction_of b.rpc_result)
          g.intent.expected_cells).status
        refl v (rw y at h)
  | inr n ↦
      subst (λ q. IsOrdinary p q.draft) (ok-injective _ k (rw n at h))
        (subst (IsOrdinary p) (sym (unchecked_draft g reorg d)) v)
]

-- The parts of a decision.
decide_parts :
    (x : Context) (g : IntentAggregate) (tx_hash : String) (b : RpcObservationBundle)
    (out : Outcome)
    → decide x g tx_hash b ≡ ok out
    → (applied : ApplyObservationResult) × (k : Checked) × IsOrdinary
        g.execution.confirmation_policy k.draft
      × (outcome x g b.observation applied k ≡ out)
unfolding decide snapshot_from_execution
decide_parts x g tx_hash b out h =
    let (applied, a, h₁) =
      >>=-eq-ok (apply_chain_observation (snapshot_from_execution g.execution) b.observation) _ h in
    let (d, j, h₂) =
      >>=-eq-ok (judged_draft x g b.observation b.rpc_result b.input_inspection applied) _ h₁ in
    let (k, c, h₃) = >>=-eq-ok (check_cells x g tx_hash b applied.reorg_detected d) _ h₂ in
    let kept = policy_kept (snapshot_from_execution g.execution) b.observation applied a in
    let v =
      judged_draft-IsOrdinary x g b.observation b.rpc_result b.input_inspection applied d
        g.execution.confirmation_policy kept j in
    (
      applied,
      k,
      check_cells-IsOrdinary x g tx_hash b applied.reorg_detected d k _ v c,
      ok-injective _ out h₃,
    )

outcome-IsReadFrom :
    (x : Context) (g : IntentAggregate) (o : ChainObservation) (applied : ApplyObservationResult)
    (k : Checked) (rows : Rows)
    → IsOrdinary g.execution.confirmation_policy k.draft
    → g.execution ≡ rows.execution
    → g.intent ≡ rows.intent
    → IsReadFrom rows (outcome x g o applied k).apply
unfolding outcome
outcome-IsReadFrom x g o applied k rows v e i = record {
  same_execution = e;
  same_intent = i;
  same_policy = v.under_policy ∙ ap (λ (r : ExecutionRecord). r.confirmation_policy) e;
  not_ready_kind = (quiet_kind k.draft.event_kind v.quiet).0;
  not_revoked_kind = (quiet_kind k.draft.event_kind v.quiet).1;
}

-- A reconciliation that decides from the current rows and writes its outcome keeps the last
-- settlement event of the ledger in agreement with the settlement of the execution.
pub reconcile_keeps_ledger :
    (x : Context) (g : IntentAggregate) (tx_hash : String) (b : RpcObservationBundle)
    (out : Outcome) (draws : Draws) (rows after : Rows) (event : Option String)
    → decide x g tx_hash b ≡ ok out
    → g.execution ≡ rows.execution
    → g.intent ≡ rows.intent
    → IsAnnounced rows
    → apply_snapshot draws out.apply rows ≡ written after event
    → IsAnnounced after
reconcile_keeps_ledger x g tx_hash b out draws rows after event h e i v w =
    let (applied, k, ordinary, same) = decide_parts x g tx_hash b out h in
    apply_snapshot-IsAnnounced draws out.apply rows after event v
      (subst (λ (q : Outcome). IsReadFrom rows q.apply) same
        (outcome-IsReadFrom x g b.observation applied k rows ordinary e i))
      w
