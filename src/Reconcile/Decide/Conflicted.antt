-- ===== src/Reconcile/Decide/Conflicted.antt =====
-- workflows/reconcile/src/reconcile.ts: when a reconciliation gives a transaction up as conflicted.
use cell_flow.Prelude.{
  ◌≡◌, ◌≢◌, ◌⊎◌, Bool, some, String, arith, ap, ◌∙◌, sym, Bool-cases, inl, inr, Any,
}
use cell_flow.Core.Status.{WorkflowStatus, ConflictType}
use cell_flow.Core.Types.{ChainObservation, ObservedStatus}
use cell_flow.Core.Errors.{ok, ok-injective, >>=-eq-ok}
use cell_flow.Core.Observation.{apply_chain_observation, set_workflow_status}
use cell_flow.Core.Observation.Trace.{applied_open}
use cell_flow.Assertions.{RpcTransaction}
use cell_flow.Rpc.Inspect.{InputInspection}
use cell_flow.Rpc.Observe.{RpcObservationBundle}
use cell_flow.Store.Rows.{IntentAggregate, snapshot_from_execution}
use cell_flow.Reconcile.Assess.{AssessmentStatus, Assessment, evaluate_assertions}
use cell_flow.Reconcile.Assess.Refutation.{Refuted, failed_refutes}
use cell_flow.Reconcile.Draft.{Context, Draft}
use cell_flow.Reconcile.Judge.{judged_draft}
use cell_flow.Reconcile.Judge.Payload.{IsShown, IsMismatched}
use cell_flow.Reconcile.Judge.Finality.{IsSpentForGood, judged_conflicted}
use cell_flow.Reconcile.Decide.{
  Checked, Outcome, unchecked, must_check, with_assessment, transaction_of, check_cells, outcome,
  decide,
}

assessed_conflicted :
    (x : Context) (o : ChainObservation) (v : Assessment) (d : Draft) (k : Checked)
    → with_assessment x o v d ≡ ok k
    → d.snapshot.workflow_status ≢ WorkflowStatus.conflicted
    → k.draft.snapshot.workflow_status ≡ WorkflowStatus.conflicted
    → (v.status ≡ AssessmentStatus.failed)
      × (k.draft.conflict_type ≡ some ConflictType.expected_cell_assertion_failed)
unfolding with_assessment set_workflow_status
assessed_conflicted x o v d k h n w = ground arith

unchecked_draft : (g : IntentAggregate) (reorg : Bool) (d : Draft) → (unchecked g reorg d).draft ≡ d
unfolding unchecked
unchecked_draft g reorg d = ground arith

-- The node shows the transaction, and it or an answer on the live Cells refutes an expected Cell.
pub record IsRefuted (x : Context) (g : IntentAggregate) (tx_hash : String)
    (b : RpcObservationBundle) : Type 0 where
  pub transaction : RpcTransaction
  pub shown : transaction_of b.rpc_result ≡ some transaction
  pub refuted : Any (Refuted x.client b.endpoint tx_hash transaction) g.intent.expected_cells

checked_conflicted :
    (x : Context) (g : IntentAggregate) (tx_hash : String) (b : RpcObservationBundle) (reorg : Bool)
    (d : Draft) (k : Checked)
    → check_cells x g tx_hash b reorg d ≡ ok k
    → k.draft.snapshot.workflow_status ≡ WorkflowStatus.conflicted
    → (k.draft ≡ d)
      ⊎ (IsRefuted x g tx_hash b
          × (k.draft.conflict_type ≡ some ConflictType.expected_cell_assertion_failed))
unfolding check_cells must_check
checked_conflicted x g tx_hash b reorg d k h w = elim (Bool-cases (must_check g reorg d)) [
  | inl checks ↦
      let v =
        evaluate_assertions x.client b.endpoint tx_hash (transaction_of b.rpc_result)
          g.intent.expected_cells in
      let (failed, kind) =
        assessed_conflicted x b.observation v d k (rw (check_cells, checks) at h)
          (λ e. ground arith) w in
      let (transaction, shown, refuted) =
        failed_refutes x.client b.endpoint tx_hash (transaction_of b.rpc_result)
          g.intent.expected_cells failed in
      inr (record { transaction = transaction; shown = shown; refuted = refuted }, kind)
  | inr skips ↦ inl (
      ap (λ (k : Checked). k.draft) (sym (ok-injective _ k (rw (check_cells, skips) at h)))
      ∙ unchecked_draft g reorg d)
]

-- A reconciliation that observed the transaction gives it up as CONFLICTED in three cases only. The
-- node shows it with a payload whose fingerprint is not the recorded one; or it is absent, an input
-- is spent, the run of spend observations has matured, and another configured endpoint, where there
-- is one, finds an input spent too; or one of the expected Cells is refuted by an answer of the
-- node.
pub conflict_needs_proof :
    (x : Context) (g : IntentAggregate) (tx_hash : String) (b : RpcObservationBundle)
    (out : Outcome)
    → decide x g tx_hash b ≡ ok out
    → out.apply.snapshot.workflow_status ≡ WorkflowStatus.conflicted
    → (IsShown b.observation.status
        × IsMismatched x g b.rpc_result
        × (out.apply.conflict_type ≡ some (some ConflictType.signed_payload_mismatch)))
      ⊎ ((b.observation.status ≡ ObservedStatus.unknown)
          × (found : InputInspection) × (b.input_inspection ≡ some found)
          × IsSpentForGood x g.execution found
          × (out.apply.conflict_type ≡ some (some ConflictType.input_spent)))
      ⊎ (IsRefuted x g tx_hash b
          × (out.apply.conflict_type ≡ some (some ConflictType.expected_cell_assertion_failed)))
unfolding decide outcome
conflict_needs_proof x g tx_hash b out h w =
    let before = snapshot_from_execution g.execution in
    let (applied, observed, h₁) = >>=-eq-ok (apply_chain_observation before b.observation) _ h in
    let judged = judged_draft x g b.observation b.rpc_result b.input_inspection applied in
    let (d, judging, h₂) = >>=-eq-ok judged _ h₁ in
    let checked = check_cells x g tx_hash b applied.reorg_detected d in
    let (k, checking, h₃) = >>=-eq-ok checked _ h₂ in
    let same = ok-injective _ out h₃ in
    let kind = ap (λ (o : Outcome). o.apply.conflict_type) (sym same) in
    let ended = ap (λ (o : Outcome). o.apply.snapshot.workflow_status) same ∙ w in
    elim (checked_conflicted x g tx_hash b applied.reorg_detected d k checking ended) [
      | inr (refuted, cells) ↦ inr (inr (refuted, kind ∙ ap some cells))
      | inl unchanged ↦
          elim (judged_conflicted x g b.observation b.rpc_result b.input_inspection applied d
            judging (applied_open before b.observation applied observed)
            (ap (λ (d : Draft). d.snapshot.workflow_status) (sym unchanged) ∙ ended)) [
              | inl (shown, mismatched, type) ↦ inl (
                shown,
                mismatched,
                kind ∙ ap (λ (d : Draft). some d.conflict_type) unchanged ∙ ap some type,
              )
              | inr (absent, found, inspected, spent, type) ↦ inr (
                  inl (
                    absent,
                    found,
                    inspected,
                    spent,
                    kind ∙ ap (λ (d : Draft). some d.conflict_type) unchanged ∙ ap some type,
                  ))
            ]
    ]
