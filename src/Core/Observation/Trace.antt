-- ===== src/Core/Observation/Trace.antt =====
-- Whole histories of observations.
use cell_flow.Prelude.{
  ◌≡◌, ◌≢◌, ◌⊎◌, inl, inr, true, List, [], ◌∷◌, arith, refl, ◌∙◌, Any, here, there,
}
use cell_flow.Core.Status.{ChainStatus, WorkflowStatus}
use cell_flow.Core.Types.{
  ConfirmationPolicy, ExecutionSnapshot, ObservedStatus, ChainObservation, ApplyObservationResult,
}
use cell_flow.Core.Errors.{Result, CellFlowError, Result-cases, ok, err, ◌>>=◌, >>=-eq-ok}
use cell_flow.Core.Confirmation.{is_confirmation_satisfied, compute_confirmation_count}
use cell_flow.Core.Observation.{initial_snapshot, apply_chain_observation}

-- Observations applied in turn.
unfoldable pub observe_all : ExecutionSnapshot → List ChainObservation → Result ExecutionSnapshot
observe_all s [] = ok s
observe_all s (o ∷ rest) = apply_chain_observation s o >>= λ r. observe_all r.snapshot rest

-- An observation that confirms under a policy.
abbrev pub Confirms : ConfirmationPolicy → ChainObservation → Type 0
Confirms policy o =
    (o.status ≡ ObservedStatus.committed)
    × (is_confirmation_satisfied policy ChainStatus.committed
          (compute_confirmation_count o.block_number o.tip_block_number)
        ≡ true)

confirmed_by :
    (s : ExecutionSnapshot) (o : ChainObservation) (r : ApplyObservationResult)
    → apply_chain_observation s o ≡ ok r
    → r.snapshot.workflow_status ≡ WorkflowStatus.confirmed
    → (s.workflow_status ≡ WorkflowStatus.confirmed) ⊎ Confirms s.confirmation_policy o
unfolding apply_chain_observation
confirmed_by s o r h w = ground arith

-- An observation never makes the workflow CONFLICTED.
pub applied_open :
    (s : ExecutionSnapshot) (o : ChainObservation) (r : ApplyObservationResult)
    → apply_chain_observation s o ≡ ok r
    → r.snapshot.workflow_status ≢ WorkflowStatus.conflicted
unfolding apply_chain_observation
applied_open s o r h w = ground arith

pub policy_kept :
    (s : ExecutionSnapshot) (o : ChainObservation) (r : ApplyObservationResult)
    → apply_chain_observation s o ≡ ok r
    → r.snapshot.confirmation_policy ≡ s.confirmation_policy
unfolding apply_chain_observation
policy_kept s o r h = ground arith

confirmed_from :
    (s t : ExecutionSnapshot) (os : List ChainObservation) (p : ConfirmationPolicy)
    → s.confirmation_policy ≡ p
    → observe_all s os ≡ ok t
    → t.workflow_status ≡ WorkflowStatus.confirmed
    → (s.workflow_status ≡ WorkflowStatus.confirmed) ⊎ Any (Confirms p) os
unfolding observe_all
confirmed_from s t [] p e h w = inl (ground arith)
confirmed_from s t (o ∷ rest) p e h w =
    let (r, first, later) =
      >>=-eq-ok (apply_chain_observation s o) (λ r. observe_all r.snapshot rest) h in
    elim (confirmed_from r.snapshot t rest p (policy_kept s o r first ∙ e) later w) [
      | inl q ↦ elim (confirmed_by s o r first q) [
        | inl old ↦ inl old
        | inr now ↦ inr (here (rw e at now))
      ]
      | inr later' ↦ inr (there later')
    ]

-- Whatever a history of observations, a transaction that starts unobserved is CONFIRMED at its
-- end only if one of the observations shows it committed at the depth of its policy.
pub confirmed_needs_commit :
    (p : ConfirmationPolicy) (os : List ChainObservation) (t : ExecutionSnapshot)
    → observe_all (initial_snapshot p) os ≡ ok t
    → t.workflow_status ≡ WorkflowStatus.confirmed
    → Any (Confirms p) os
unfolding initial_snapshot
confirmed_needs_commit p os t h w = elim (confirmed_from (initial_snapshot p) t os p refl h w) [
  | inl q ↦ absurd (ground arith)
  | inr a ↦ a
]

-- Neither end state.
abbrev pub IsRunning : ExecutionSnapshot → Type 0
IsRunning s =
    (s.workflow_status ≢ WorkflowStatus.conflicted) × (s.workflow_status ≢ WorkflowStatus.expired)

accepted :
    (s : ExecutionSnapshot) (o : ChainObservation) (e : CellFlowError)
    → IsRunning s
    → apply_chain_observation s o ≢ err e
unfolding apply_chain_observation
accepted s o e v = ground arith

stays :
    (s : ExecutionSnapshot) (o : ChainObservation) (r : ApplyObservationResult)
    → IsRunning s
    → apply_chain_observation s o ≡ ok r
    → IsRunning r.snapshot
unfolding apply_chain_observation
stays s o r v h = ground arith

pub apply_total :
    (s : ExecutionSnapshot) (o : ChainObservation)
    → IsRunning s
    → (r : ApplyObservationResult) × (apply_chain_observation s o ≡ ok r) × IsRunning r.snapshot
apply_total s o v = elim (Result-cases (apply_chain_observation s o)) [
  | inl (e, h) ↦ absurd (accepted s o e v h)
  | inr (r, h) ↦ (r, h, stays s o r v h)
]

-- No history of observations is refused, unless it starts CONFLICTED or EXPIRED.
pub observe_all_total :
    (s : ExecutionSnapshot) (os : List ChainObservation)
    → IsRunning s
    → (t : ExecutionSnapshot) × (observe_all s os ≡ ok t) × IsRunning t
unfolding observe_all
observe_all_total s [] v = (s, refl, v)
observe_all_total s (o ∷ rest) v =
    let (r, e, w) = apply_total s o v in
    let (t, f, u) = observe_all_total r.snapshot rest w in (t, rw (e, f), u)
