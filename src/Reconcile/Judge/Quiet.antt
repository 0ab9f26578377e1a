-- ===== src/Reconcile/Judge/Quiet.antt =====
-- No judgement on the payload or the inputs speaks of the settlement.
use cell_flow.Prelude.{◌≡◌, Option, some, none, refl, subst, Bool-cases, inl, inr}
use cell_flow.Core.Types.{
  ConfirmationPolicy, ObservedStatus, ChainObservation, ApplyObservationResult,
}
use cell_flow.Core.Errors.{ok, ok-injective}
use cell_flow.Core.Observation.{shows_transaction}
use cell_flow.Rpc.Session.{RpcTransactionResult}
use cell_flow.Rpc.Inspect.{InputInspectionState, InputInspection}
use cell_flow.Store.Rows.{ExecutionRecord, IntentAggregate}
use cell_flow.Reconcile.Draft.{Context, Draft, payload_mismatch}
use cell_flow.Reconcile.Ordinary.{
  IsOrdinary, first_draft-IsOrdinary, mismatch_draft-IsOrdinary, found_draft-IsOrdinary,
  contended_draft-IsOrdinary, spent_draft-IsOrdinary,
}
use cell_flow.Reconcile.Judge.{
  live_draft, uncertain_draft, inspected_draft, absent_draft, judged_draft,
}

inspected_draft-IsOrdinary :
    (x : Context) (e : ExecutionRecord) (i : InputInspection) (d out : Draft)
    (p : ConfirmationPolicy) (state : InputInspectionState)
    → i.state ≡ state
    → IsOrdinary p d
    → inspected_draft x e i d ≡ ok out
    → IsOrdinary p out
unfolding inspected_draft live_draft uncertain_draft
inspected_draft-IsOrdinary x e i d out p InputInspectionState.mempool_contended s v h =
    subst (IsOrdinary p) (ok-injective _ out (rw (inspected_draft, s) at h))
      (contended_draft-IsOrdinary x e i d p v)
inspected_draft-IsOrdinary x e i d out p InputInspectionState.canonically_spent s v h =
    spent_draft-IsOrdinary x e i d out p v (rw (inspected_draft, s) at h)
inspected_draft-IsOrdinary x e i d out p InputInspectionState.all_live s v h =
    subst (IsOrdinary p) (ok-injective _ out (rw (inspected_draft, s) at h))
      (record { under_policy = v.under_policy; quiet = refl })
inspected_draft-IsOrdinary x e i d out p InputInspectionState.unknown s v h =
    subst (IsOrdinary p) (ok-injective _ out (rw (inspected_draft, s) at h))
      (record { under_policy = v.under_policy; quiet = refl })

absent_draft-IsOrdinary :
    (x : Context) (e : ExecutionRecord) (status : ObservedStatus) (i : Option InputInspection)
    (d out : Draft) (p : ConfirmationPolicy)
    → IsOrdinary p d
    → absent_draft x e status i d ≡ ok out
    → IsOrdinary p out
unfolding absent_draft
absent_draft-IsOrdinary x e ObservedStatus.unknown (some i) d out p v h =
    inspected_draft-IsOrdinary x e i d out p i.state refl v h
absent_draft-IsOrdinary x e ObservedStatus.unknown none d out p v h =
    subst (IsOrdinary p) (ok-injective d out h) v
absent_draft-IsOrdinary x e ObservedStatus.pending i d out p v h =
    subst (IsOrdinary p) (ok-injective d out h) v
absent_draft-IsOrdinary x e ObservedStatus.proposed i d out p v h =
    subst (IsOrdinary p) (ok-injective d out h) v
absent_draft-IsOrdinary x e ObservedStatus.committed i d out p v h =
    subst (IsOrdinary p) (ok-injective d out h) v
absent_draft-IsOrdinary x e ObservedStatus.rejected i d out p v h =
    subst (IsOrdinary p) (ok-injective d out h) v

-- A judged draft keeps the policy, and its event does not speak of the settlement.
pub judged_draft-IsOrdinary :
    (x : Context) (g : IntentAggregate) (o : ChainObservation) (r : Option RpcTransactionResult)
    (i : Option InputInspection) (applied : ApplyObservationResult) (out : Draft)
    (p : ConfirmationPolicy)
    → applied.snapshot.confirmation_policy ≡ p
    → judged_draft x g o r i applied ≡ ok out
    → IsOrdinary p out
unfolding judged_draft
judged_draft-IsOrdinary x g o r i applied out p k h =
    let v = first_draft-IsOrdinary g.execution o applied p k in
    elim (Bool-cases (payload_mismatch x g o.status r)) [
      | inl y ↦ mismatch_draft-IsOrdinary x g o r _ out p v (rw y at h)
      | inr m ↦ elim (Bool-cases (shows_transaction o.status)) [
        | inl y ↦
            subst (IsOrdinary p) (ok-injective _ out (rw (m, y) at h))
              (found_draft-IsOrdinary g.execution o.status _ p v)
        | inr n ↦ absent_draft-IsOrdinary x g.execution o.status i _ out p v (rw (m, n) at h)
      ]
    ]
