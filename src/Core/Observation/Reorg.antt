-- ===== src/Core/Observation/Reorg.antt =====
-- What evidence ends a recorded commit.
use cell_flow.Prelude.{
  ◌≡◌, ◌≢◌, ◌⊎◌, true, false, none, some, arith, eq_iff, if◌then◌else◌, ◌==◌, Option, String,
  Bool-cases, inl, inr,
}
use cell_flow.Core.Status.{workflow_eq, ChainStatus, WorkflowStatus}
use cell_flow.Core.Types.{
  OverallStatus, ExecutionSnapshot, ObservedStatus, ChainObservation, EventKind,
  ApplyObservationResult,
}
use cell_flow.Core.Errors.{ok}
use cell_flow.Core.Confirmation.{is_confirmation_satisfied, compute_confirmation_count}
use cell_flow.Core.Settlement.{truthy, derive_overall_status}
use cell_flow.Core.Observation.{differs, reorg_against_prior_commit, apply_chain_observation}

-- The evidence: the recorded height has another canonical block, or the transaction is committed
-- in another block.
abbrev pub IsReorgEvidence : ExecutionSnapshot → ChainObservation → Type 0
IsReorgEvidence s o =
    (truthy s.committed_block_hash ≡ true)
    × ((o.prior_commit_canonical ≡ some false)
        ⊎ ((o.status ≡ ObservedStatus.committed)
            × (truthy o.block_hash ≡ true)
            × (o.block_hash ≢ s.committed_block_hash)))

differs-ne : (a b : Option String) → differs a b ≡ true → a ≢ b
differs-ne none none h = cc
differs-ne none (some b) h = λ e. cc
differs-ne (some a) none h = λ e. cc
differs-ne (some a) (some b) h = ground (arith, eq_iff a b)

reorg-IsReorgEvidence :
    (s : ExecutionSnapshot) (o : ChainObservation)
    → reorg_against_prior_commit s o ≡ true
    → IsReorgEvidence s o
unfolding reorg_against_prior_commit
reorg-IsReorgEvidence s o h = ground (arith, differs-ne o.block_hash s.committed_block_hash)

no_evidence :
    (s : ExecutionSnapshot) (o : ChainObservation)
    → ¬ IsReorgEvidence s o
    → reorg_against_prior_commit s o ≡ false
no_evidence s o n = elim (Bool-cases (reorg_against_prior_commit s o)) [
  | inl e ↦ absurd (n (reorg-IsReorgEvidence s o e))
  | inr e ↦ e
]

-- While a transaction is recorded as committed and nothing disproves its block, an observation of
-- any other status keeps the chain status, the block and the count, keeps a confirmed workflow
-- confirmed and makes any other RECONCILING, and reports no reorg.
pub commit_kept :
    (s : ExecutionSnapshot) (o : ChainObservation) (r : ApplyObservationResult)
    → apply_chain_observation s o ≡ ok r
    → s.chain_status ≡ ChainStatus.committed
    → o.status ≢ ObservedStatus.committed
    → ¬ IsReorgEvidence s o
    → (r.snapshot.chain_status ≡ ChainStatus.committed)
      × (r.snapshot.committed_block_hash ≡ s.committed_block_hash)
      × (r.snapshot.committed_block_number ≡ s.committed_block_number)
      × (r.snapshot.confirmation_count ≡ s.confirmation_count)
      × (r.snapshot.workflow_status ≡ (
          if s.workflow_status == WorkflowStatus.confirmed
          then WorkflowStatus.confirmed
          else WorkflowStatus.reconciling))
      × (r.reorg_detected ≡ false)
unfolding apply_chain_observation
commit_kept s o r h c n e = ground (arith, no_evidence s o e)

lost_without_reorg :
    (s : ExecutionSnapshot) (o : ChainObservation) (r : ApplyObservationResult)
    → reorg_against_prior_commit s o ≡ false
    → apply_chain_observation s o ≡ ok r
    → s.workflow_status ≡ WorkflowStatus.confirmed
    → s.chain_status ≡ ChainStatus.committed
    → r.snapshot.workflow_status ≢ WorkflowStatus.confirmed
    → (o.status ≡ ObservedStatus.committed)
      × (is_confirmation_satisfied s.confirmation_policy ChainStatus.committed
            (compute_confirmation_count o.block_number o.tip_block_number)
          ≡ false)
unfolding apply_chain_observation
lost_without_reorg s o r e h w c n = ground arith

-- A confirmation is lost only to evidence of a reorg, or to a committed observation whose depth
-- does not reach the policy.
pub confirmation_lost :
    (s : ExecutionSnapshot) (o : ChainObservation) (r : ApplyObservationResult)
    → apply_chain_observation s o ≡ ok r
    → s.workflow_status ≡ WorkflowStatus.confirmed
    → s.chain_status ≡ ChainStatus.committed
    → r.snapshot.workflow_status ≢ WorkflowStatus.confirmed
    → IsReorgEvidence s o
      ⊎ ((o.status ≡ ObservedStatus.committed)
          × (is_confirmation_satisfied s.confirmation_policy ChainStatus.committed
                (compute_confirmation_count o.block_number o.tip_block_number)
              ≡ false))
confirmation_lost s o r h w c n = elim (Bool-cases (reorg_against_prior_commit s o)) [
  | inl e ↦ inl (reorg-IsReorgEvidence s o e)
  | inr e ↦ inr (lost_without_reorg s o r e h w c n)
]

reported_kind :
    (s : ExecutionSnapshot) (o : ChainObservation) (r : ApplyObservationResult)
    → apply_chain_observation s o ≡ ok r
    → r.reorg_detected ≡ true
    → (reorg_against_prior_commit s o ≡ true) × (r.event.kind ≡ EventKind.reorg_detected)
unfolding apply_chain_observation
reported_kind s o r h e = ground arith

reported_open :
    (s : ExecutionSnapshot) (o : ChainObservation) (r : ApplyObservationResult)
    → apply_chain_observation s o ≡ ok r
    → r.reorg_detected ≡ true
    → o.status ≢ ObservedStatus.committed
    → o.status ≢ ObservedStatus.rejected
    → (r.snapshot.committed_block_hash ≡ none)
      × (r.snapshot.committed_block_number ≡ none)
      × (r.snapshot.workflow_status ≡ WorkflowStatus.reorged)
      × (r.snapshot.chain_status ≢ ChainStatus.rejected)
unfolding apply_chain_observation
reported_open s o r h e c d = ground arith

reorged_overall :
    (s : ExecutionSnapshot)
    → s.workflow_status ≡ WorkflowStatus.reorged
    → s.chain_status ≢ ChainStatus.rejected
    → derive_overall_status s ≡ OverallStatus.reorged
unfolding derive_overall_status
reorged_overall s w c = ground arith

status_cases :
    (x : ObservedStatus)
    → (x ≡ ObservedStatus.committed)
      ⊎ (x ≡ ObservedStatus.rejected)
      ⊎ ((x ≢ ObservedStatus.committed) × (x ≢ ObservedStatus.rejected))
status_cases x = ground arith

-- An observation that reports a reorg rests on its evidence and makes a REORG_DETECTED event. The
-- transaction is then seen committed or rejected, or its block is forgotten and the overall status
-- is REORGED.
pub reorg_reported :
    (s : ExecutionSnapshot) (o : ChainObservation) (r : ApplyObservationResult)
    → apply_chain_observation s o ≡ ok r
    → r.reorg_detected ≡ true
    → IsReorgEvidence s o
      × (r.event.kind ≡ EventKind.reorg_detected)
      × ((o.status ≡ ObservedStatus.committed)
          ⊎ (o.status ≡ ObservedStatus.rejected)
          ⊎ ((r.snapshot.committed_block_hash ≡ none)
              × (r.snapshot.committed_block_number ≡ none)
              × (derive_overall_status r.snapshot ≡ OverallStatus.reorged)))
reorg_reported s o r h e =
    let (found, kind) = reported_kind s o r h e in
    (
      reorg-IsReorgEvidence s o found,
      kind,
      elim (status_cases o.status) [
        | inl c ↦ inl c
        | inr rest ↦ elim rest [
          | inl d ↦ inr (inl d)
          | inr (c, d) ↦
              let (a, b, w, n) = reported_open s o r h e c d in
              inr (inr (a, b, reorged_overall r.snapshot w n))
        ]
      ],
    )
