-- ===== src/Reconcile/Judge/Finality.antt =====
-- workflows/reconcile/src/reconcile.ts: when an observation is judged to end a transaction as conflicted.
use cell_flow.Prelude.{
  ◌≡◌, ◌≢◌, ◌⊎◌, true, Option, some, none, arith, refl, Bool-cases, inl, inr, sym, ap, ◌∙◌, ◌≤◌,
  ◌<◌, length, Any,
}
use cell_flow.Core.Status.{WorkflowStatus, ConflictType, workflow_eq, chain_eq}
use cell_flow.Core.Types.{
  ExecutionSnapshot, ObservedStatus, ChainObservation, ApplyObservationResult,
}
use cell_flow.Core.Errors.{ok, ok-injective, CellFlowError, err}
use cell_flow.Core.Observation.{shows_transaction, set_workflow_status, supersede_node_rejection}
use cell_flow.Core.Conflict.{conflict_observation_matured}
use cell_flow.Rpc.Session.{RpcTransactionResult}
use cell_flow.Rpc.Inspect.{InputInspectionState, InputInspection}
use cell_flow.Store.Rows.{ExecutionRecord, IntentAggregate}
use cell_flow.Rpc.Client.{inspect_input_out_points_at}
use cell_flow.Reconcile.Corroborate.{distinct}
use cell_flow.Reconcile.Corroborate.Endpoints.{Corroborates, spend_corroborated}
use cell_flow.Reconcile.Judge.Payload.{IsShown, IsMismatched, payload_mismatch-IsMismatched}
use cell_flow.Reconcile.Draft.{
  Context, Draft, payload_mismatch, first_draft, mismatch_draft, found_draft,
}
use cell_flow.Reconcile.Contention.{contended_draft}
use cell_flow.Reconcile.Spend.{spent_draft, corroboration, evidence_of}
use cell_flow.Reconcile.Judge.{
  live_draft, uncertain_draft, inspected_draft, absent_draft, judged_draft,
}

-- The evidence for the end of a transaction whose input is spent: the run of observations has
-- matured, and another configured endpoint than the one that was asked finds an input spent too,
-- where two or more are configured.
pub record IsSpentForGood (x : Context) (e : ExecutionRecord) (i : InputInspection) : Type 0 where
  pub state_spent : i.state ≡ InputInspectionState.canonically_spent
  pub matured :
      conflict_observation_matured e.confirmation_policy e.conflict_details (evidence_of x i) ≡ true
  pub corroborated :
      ((2 ≤ length (distinct x.endpoints))
        × Any
            (Corroborates
              (λ u. inspect_input_out_points_at x.client x.now u x.inputs x.identity)
              i.endpoint)
            x.endpoints)
      ⊎ (length (distinct x.endpoints) < 2)

first_status :
    (e : ExecutionRecord) (o : ChainObservation) (applied : ApplyObservationResult)
    → (first_draft e o applied).snapshot.workflow_status ≡ applied.snapshot.workflow_status
unfolding first_draft supersede_node_rejection
first_status e o applied = ground arith

spent_conflicted :
    (x : Context) (e : ExecutionRecord) (i : InputInspection) (d out : Draft)
    → spent_draft x e i d ≡ ok out
    → d.snapshot.workflow_status ≢ WorkflowStatus.conflicted
    → out.snapshot.workflow_status ≡ WorkflowStatus.conflicted
    → (conflict_observation_matured e.confirmation_policy e.conflict_details (evidence_of x i)
        ≡ true)
      × ((corroboration x i).confirmed ≡ true)
      × (out.conflict_type ≡ some ConflictType.input_spent)
unfolding spent_draft set_workflow_status
spent_conflicted x e i d out h n w = ground arith

agreed :
    (x : Context) (i : InputInspection)
    → (corroboration x i).confirmed ≡ true
    → ((2 ≤ length (distinct x.endpoints))
        × Any
            (Corroborates
              (λ u. inspect_input_out_points_at x.client x.now u x.inputs x.identity)
              i.endpoint)
            x.endpoints)
      ⊎ (length (distinct x.endpoints) < 2)
agreed x i h = elim (spend_corroborated x.client x.now i x.endpoints x.inputs x.identity h) [
  | inl others ↦ inl others
  | inr (alone, state) ↦ inr alone
]

-- How an inspection of the inputs can end the workflow.
abbrev Ends : Context → ExecutionRecord → InputInspection → Draft → Type 0
Ends x e i out = IsSpentForGood x e i × (out.conflict_type ≡ some ConflictType.input_spent)

inspected_conflicted :
    (x : Context) (e : ExecutionRecord) (i : InputInspection) (d out : Draft)
    (state : InputInspectionState)
    → i.state ≡ state
    → inspected_draft x e i d ≡ ok out
    → d.snapshot.workflow_status ≢ WorkflowStatus.conflicted
    → out.snapshot.workflow_status ≡ WorkflowStatus.conflicted
    → Ends x e i out
unfolding inspected_draft contended_draft live_draft uncertain_draft
inspected_conflicted x e i d out InputInspectionState.canonically_spent s h n w =
    let (m, c, t) = spent_conflicted x e i d out (rw (inspected_draft, s) at h) n w in
    (record { state_spent = s; matured = m; corroborated = agreed x i c }, t)
inspected_conflicted x e i d out InputInspectionState.mempool_contended s h n w =
    absurd (ground arith)
inspected_conflicted x e i d out InputInspectionState.all_live s h n w = absurd (ground arith)
inspected_conflicted x e i d out InputInspectionState.unknown s h n w = absurd (ground arith)

absent_conflicted :
    (x : Context) (e : ExecutionRecord) (status : ObservedStatus) (i : Option InputInspection)
    (d out : Draft)
    → absent_draft x e status i d ≡ ok out
    → d.snapshot.workflow_status ≢ WorkflowStatus.conflicted
    → out.snapshot.workflow_status ≡ WorkflowStatus.conflicted
    → (status ≡ ObservedStatus.unknown)
      × (found : InputInspection) × (i ≡ some found)
      × Ends x e found out
unfolding absent_draft
absent_conflicted x e ObservedStatus.unknown (some i) d out h n w =
    (refl, i, refl, inspected_conflicted x e i d out i.state refl h n w)
absent_conflicted x e ObservedStatus.unknown none d out h n w = absurd (ground arith)
absent_conflicted x e ObservedStatus.pending i d out h n w = absurd (ground arith)
absent_conflicted x e ObservedStatus.proposed i d out h n w = absurd (ground arith)
absent_conflicted x e ObservedStatus.committed i d out h n w = absurd (ground arith)
absent_conflicted x e ObservedStatus.rejected i d out h n w = absurd (ground arith)

found_status :
    (e : ExecutionRecord) (s : ObservedStatus) (d : Draft)
    → (found_draft e s d).snapshot ≡ d.snapshot
unfolding found_draft
found_status e s d = ground arith

mismatch_type :
    (x : Context) (g : IntentAggregate) (o : ChainObservation) (r : Option RpcTransactionResult)
    (d out : Draft)
    → mismatch_draft x g o r d ≡ ok out
    → out.conflict_type ≡ some ConflictType.signed_payload_mismatch
unfolding mismatch_draft set_workflow_status
mismatch_type x g o r d out h = ground arith

-- An observation that did not itself make the workflow CONFLICTED is judged to do so in two cases
-- only. The node shows the transaction with another signed payload than the recorded one; or the
-- transaction is absent, an input is spent, the run of spend observations has matured, and the
-- configured endpoints corroborate the spend.
pub judged_conflicted :
    (x : Context) (g : IntentAggregate) (o : ChainObservation) (r : Option RpcTransactionResult)
    (i : Option InputInspection) (applied : ApplyObservationResult) (out : Draft)
    → judged_draft x g o r i applied ≡ ok out
    → applied.snapshot.workflow_status ≢ WorkflowStatus.conflicted
    → out.snapshot.workflow_status ≡ WorkflowStatus.conflicted
    → (IsShown o.status
        × IsMismatched x g r
        × (out.conflict_type ≡ some ConflictType.signed_payload_mismatch))
      ⊎ ((o.status ≡ ObservedStatus.unknown)
          × (found : InputInspection) × (i ≡ some found)
          × IsSpentForGood x g.execution found
          × (out.conflict_type ≡ some ConflictType.input_spent))
unfolding judged_draft
judged_conflicted x g o r i applied out h n w =
    elim (Bool-cases (payload_mismatch x g o.status r)) [
      | inl y ↦
          let (shown, differs_there) = payload_mismatch-IsMismatched x g o.status r y in
          inl (shown, differs_there, mismatch_type x g o r _ out (rw y at h))
      | inr m ↦ elim (Bool-cases (shows_transaction o.status)) [
        | inl y ↦ absurd (
            n (
              sym (first_status g.execution o applied)
              ∙ ap (λ (s : ExecutionSnapshot). s.workflow_status)
                  (sym (found_status g.execution o.status (first_draft g.execution o applied)))
              ∙ ap (λ (q : Draft). q.snapshot.workflow_status) (ok-injective _ out (rw (m, y) at h))
              ∙ w))
        | inr k ↦
            let (u, f, e, (s, t)) =
              absent_conflicted x g.execution o.status i (first_draft g.execution o applied) out
                (rw (m, k) at h) (λ q. n (sym (first_status g.execution o applied) ∙ q)) w in
            inr (u, f, e, s, t)
      ]
    ]

spent_total :
    (x : Context) (e : ExecutionRecord) (i : InputInspection) (d : Draft) (error : CellFlowError)
    → spent_draft x e i d ≢ err error
unfolding spent_draft set_workflow_status
spent_total x e i d error = ground arith

inspected_total :
    (x : Context) (e : ExecutionRecord) (i : InputInspection) (d : Draft) (error : CellFlowError)
    (state : InputInspectionState)
    → i.state ≡ state
    → inspected_draft x e i d ≢ err error
unfolding inspected_draft
inspected_total x e i d error InputInspectionState.canonically_spent s h =
    spent_total x e i d error (rw (inspected_draft, s) at h)
inspected_total x e i d error InputInspectionState.mempool_contended s h = absurd (ground arith)
inspected_total x e i d error InputInspectionState.all_live s h = absurd (ground arith)
inspected_total x e i d error InputInspectionState.unknown s h = absurd (ground arith)

absent_total :
    (x : Context) (e : ExecutionRecord) (status : ObservedStatus) (i : Option InputInspection)
    (d : Draft) (error : CellFlowError)
    → absent_draft x e status i d ≢ err error
unfolding absent_draft
absent_total x e ObservedStatus.unknown (some i) d error h =
    inspected_total x e i d error i.state refl h
absent_total x e ObservedStatus.unknown none d error h = absurd (ground arith)
absent_total x e ObservedStatus.pending i d error h = absurd (ground arith)
absent_total x e ObservedStatus.proposed i d error h = absurd (ground arith)
absent_total x e ObservedStatus.committed i d error h = absurd (ground arith)
absent_total x e ObservedStatus.rejected i d error h = absurd (ground arith)

mismatch_total :
    (x : Context) (g : IntentAggregate) (o : ChainObservation) (r : Option RpcTransactionResult)
    (d : Draft) (error : CellFlowError)
    → mismatch_draft x g o r d ≢ err error
unfolding mismatch_draft set_workflow_status
mismatch_total x g o r d error = ground arith

-- Every applied observation is judged.
pub judged_total :
    (x : Context) (g : IntentAggregate) (o : ChainObservation) (r : Option RpcTransactionResult)
    (i : Option InputInspection) (applied : ApplyObservationResult) (error : CellFlowError)
    → judged_draft x g o r i applied ≢ err error
unfolding judged_draft
judged_total x g o r i applied error h = elim (Bool-cases (payload_mismatch x g o.status r)) [
  | inl y ↦ mismatch_total x g o r _ error (rw y at h)
  | inr m ↦ elim (Bool-cases (shows_transaction o.status)) [
    | inl y ↦ cc (rw (m, y) at h)
    | inr k ↦ absent_total x g.execution o.status i _ error (rw (m, k) at h)
  ]
]
