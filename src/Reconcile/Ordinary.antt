-- ===== src/Reconcile/Ordinary.antt =====
-- What a reconciliation writes is fit for the ledger.
use cell_flow.Json.{is_true, get, as_record}
use cell_flow.Prelude.{
  ◌≡◌, true, false, ◌||◌, ◌==◌, string_eq, Option, String, arith, refl, subst, Bool-cases, inl, inr,
  if◌then◌else◌, Bool, not, ◌&&◌,
}
use cell_flow.Core.Types.{
  ConfirmationPolicy, EventKind, ObservedStatus, ChainObservation, ApplyObservationResult,
}
use cell_flow.Core.Errors.{ok, ok-injective}
use cell_flow.Core.Observation.{set_workflow_status, supersede_node_rejection}
use cell_flow.Core.Conflict.{conflict_observation_matured}
use cell_flow.Rpc.Session.{RpcTransactionResult}
use cell_flow.Rpc.Inspect.{InputInspection}
use cell_flow.Store.Rows.{ExecutionRecord, IntentAggregate}
use cell_flow.Reconcile.Draft.{
  Context, Draft, kind_text, first_draft, mismatch_draft, found_draft, rejection_superseded,
}
use cell_flow.Reconcile.Contention.{contended_draft, grace_expired}
use cell_flow.Reconcile.Spend.{spent_draft, evidence_of, corroboration}

-- Whether an event's kind is one of the two of the settlement.
abbrev pub speaks : String → Bool
speaks k = k == "SETTLEMENT_READY" || k == "SETTLEMENT_REVOKED"

-- A draft under a policy, whose event does not speak of the settlement.
pub record IsOrdinary (p : ConfirmationPolicy) (d : Draft) : Type 0 where
  pub under_policy : d.snapshot.confirmation_policy ≡ p
  pub quiet : speaks d.event_kind ≡ false

speaks-kind_text : (k : EventKind) → speaks (kind_text k) ≡ false
speaks-kind_text EventKind.chain_observed = refl
speaks-kind_text EventKind.reorg_detected = refl
speaks-kind_text EventKind.confirmed = refl

speaks_if :
    (b : Bool) (s t : String)
    → speaks s ≡ false
    → speaks t ≡ false
    → speaks (if b then s else t) ≡ false
speaks_if true s t h k = h
speaks_if false s t h k = k

choose-IsOrdinary :
    (p : ConfirmationPolicy) (b : Bool) (d e : Draft)
    → IsOrdinary p d
    → IsOrdinary p e
    → IsOrdinary p (if b then d else e)
choose-IsOrdinary p true d e v w = v
choose-IsOrdinary p false d e v w = w

pub first_draft-IsOrdinary :
    (e : ExecutionRecord) (o : ChainObservation) (applied : ApplyObservationResult)
    (p : ConfirmationPolicy)
    → applied.snapshot.confirmation_policy ≡ p
    → IsOrdinary p (first_draft e o applied)
unfolding first_draft supersede_node_rejection
first_draft-IsOrdinary e o applied p h = record {
  under_policy = ground arith;
  quiet = speaks-kind_text applied.event.kind;
}

pub mismatch_draft-IsOrdinary :
    (x : Context) (g : IntentAggregate) (o : ChainObservation) (r : Option RpcTransactionResult)
    (d out : Draft) (p : ConfirmationPolicy)
    → IsOrdinary p d
    → mismatch_draft x g o r d ≡ ok out
    → IsOrdinary p out
unfolding mismatch_draft set_workflow_status
mismatch_draft-IsOrdinary x g o r d out p v h =
    subst (IsOrdinary p) (ok-injective _ out h)
      (record { under_policy = v.under_policy; quiet = refl })

pub found_draft-IsOrdinary :
    (e : ExecutionRecord) (s : ObservedStatus) (d : Draft) (p : ConfirmationPolicy)
    → IsOrdinary p d
    → IsOrdinary p (found_draft e s d)
unfolding found_draft
found_draft-IsOrdinary e s d p v =
    choose-IsOrdinary p (rejection_superseded e s) _ _
      (record { under_policy = v.under_policy; quiet = refl })
      (record { under_policy = v.under_policy; quiet = v.quiet })

pub contended_draft-IsOrdinary :
    (x : Context) (e : ExecutionRecord) (i : InputInspection) (d : Draft) (p : ConfirmationPolicy)
    → IsOrdinary p d
    → IsOrdinary p (contended_draft x e i d)
unfolding contended_draft
contended_draft-IsOrdinary x e i d p v = record {
  under_policy = v.under_policy;
  quiet =
      speaks_if
        (grace_expired x e.conflict_details i
          && not (is_true (get "graceExpired" (as_record e.conflict_details))))
        "INPUT_CONTENTION_GRACE_EXPIRED" "INPUT_POOL_CONTENTION_DETECTED" refl refl;
}

pub spent_draft-IsOrdinary :
    (x : Context) (e : ExecutionRecord) (i : InputInspection) (d out : Draft)
    (p : ConfirmationPolicy)
    → IsOrdinary p d
    → spent_draft x e i d ≡ ok out
    → IsOrdinary p out
unfolding spent_draft set_workflow_status
spent_draft-IsOrdinary x e i d out p v h =
    elim (Bool-cases
      (conflict_observation_matured e.confirmation_policy e.conflict_details (evidence_of x i))) [
        | inl m ↦ elim (Bool-cases (corroboration x i).confirmed) [
          | inl c ↦
              subst (IsOrdinary p) (ok-injective _ out (rw (m, c) at h))
                (record { under_policy = v.under_policy; quiet = refl })
          | inr c ↦
              subst (IsOrdinary p) (ok-injective _ out (rw (m, c) at h))
                (record { under_policy = v.under_policy; quiet = refl })
        ]
        | inr m ↦
            subst (IsOrdinary p) (ok-injective _ out (rw m at h))
              (record { under_policy = v.under_policy; quiet = refl })
      ]
