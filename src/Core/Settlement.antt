-- ===== src/Core/Settlement.antt =====
-- packages/core/src/state-machine.ts: the projections of a snapshot, `isSettlementReady`,
-- `deriveOverallStatus` and `deriveRecommendedAction`.
pub mod Guidance
pub mod Projection
use cell_flow.Prelude.{
  ℕ, Bool, true, false, not, ◌&&◌, ◌||◌, Option, none, some, String, if◌then◌else◌, ◌==◌, leb,
  nat_beq, is_none, string_eq, option_eq,
}
use cell_flow.Json.{Json, as_record, as_text, get, is_true, text_is}
use cell_flow.Core.Status.{
  SubmissionStatus, ChainStatus, WorkflowStatus, ConflictDomain, ConflictType, workflow_eq,
  submission_eq, conflict_eq, chain_eq,
}
use cell_flow.Core.Types.{OverallStatus, RecommendedAction, ExecutionSnapshot}
use cell_flow.Core.Confirmation.{is_confirmation_satisfied, max_safe_integer}

-- `Boolean(text)`: present and not empty.
abbrev pub truthy : Option String → Bool
truthy none = false
truthy (some s) = not (s == "")

-- `assertionStatus === "VERIFIED"`.
abbrev pub status_is : Option String → String → Bool
status_is none t = false
status_is (some s) t = s == t

unfoldable pub is_settlement_ready :
    ExecutionSnapshot → Option String → ℕ → Option ConflictType → Bool
is_settlement_ready s assertion_status required conflict_type =
    s.workflow_status == WorkflowStatus.confirmed
    && s.chain_status == ChainStatus.committed
    && (truthy s.committed_block_hash && truthy s.committed_block_number)
    && is_confirmation_satisfied s.confirmation_policy s.chain_status s.confirmation_count
    && is_none conflict_type
    && leb required max_safe_integer
    && (nat_beq required 0 || status_is assertion_status "VERIFIED")

unfoldable pub derive_overall_status : ExecutionSnapshot → OverallStatus
derive_overall_status s =
    if s.workflow_status == WorkflowStatus.conflicted
    then OverallStatus.conflicted
    else if s.workflow_status == WorkflowStatus.expired
    then OverallStatus.expired
    else if s.chain_status == ChainStatus.rejected
    then OverallStatus.rejected
    else if s.workflow_status == WorkflowStatus.reorged
    then OverallStatus.reorged
    else if s.workflow_status == WorkflowStatus.confirmed
    then OverallStatus.confirmed
    else if s.chain_status == ChainStatus.committed
    then OverallStatus.committed
    else if s.chain_status == ChainStatus.proposed
    then OverallStatus.proposed
    else if s.chain_status == ChainStatus.pending
    then OverallStatus.pending
    else if s.submission_status == SubmissionStatus.node_rejected
    then OverallStatus.node_rejected
    else if s.workflow_status == WorkflowStatus.reconciling
    then OverallStatus.reconciling
    else if s.chain_status == ChainStatus.unknown
    then OverallStatus.unknown
    else if s.submission_status == SubmissionStatus.submitted
    then OverallStatus.submitted
    else if s.submission_status == SubmissionStatus.submission_unknown
    then OverallStatus.unknown
    else if s.submission_status == SubmissionStatus.broadcasting
    then OverallStatus.submitting
    else if s.submission_status == SubmissionStatus.prepared
    then OverallStatus.prepared
    else OverallStatus.created

domain_of : Option String → ConflictDomain
domain_of none = ConflictDomain.unknown
domain_of (some v) =
    if v == "APPLICATION"
    then ConflictDomain.application
    else if v == "WALLET"
    then ConflictDomain.wallet
    else if v == "MIXED"
    then ConflictDomain.mixed
    else ConflictDomain.unknown

unfoldable pub conflict_domain_from_details : Json → ConflictDomain
unfolding domain_of
conflict_domain_from_details details = domain_of (as_text (get "inputDomain" (as_record details)))

-- The action for the domain of an input that is spent, or contended past its grace.
recovery_for_domain : ConflictDomain → RecommendedAction
recovery_for_domain ConflictDomain.wallet = RecommendedAction.recollect_wallet_inputs
recovery_for_domain ConflictDomain.mixed = RecommendedAction.rebuild_and_resign
recovery_for_domain ConflictDomain.application = RecommendedAction.rebuild_from_live_state
recovery_for_domain ConflictDomain.unknown = RecommendedAction.manual_review

-- The branch of `INPUT_CONFLICT_SUSPECTED`.
suspected_action : Json → RecommendedAction
suspected_action details =
    if text_is (get "classification" (as_record details)) "MEMPOOL_CONTENDED"
      && is_true (get "graceExpired" (as_record details))
    then recovery_for_domain (conflict_domain_from_details details)
    else RecommendedAction.wait_and_reconcile

-- Whether a node's rejection can be retried when a maturity or `since` lock passes.
waits_for_maturity : ExecutionSnapshot → Json → Bool
waits_for_maturity s error_details =
    s.submission_status == SubmissionStatus.node_rejected
    && is_true (get "retryable" (as_record error_details))
    && text_is (get "retryReason" (as_record error_details)) "CKB_MATURITY_OR_SINCE"

-- The tests below the conflict branches.
submission_action : ExecutionSnapshot → Json → RecommendedAction
submission_action s error_details =
    if waits_for_maturity s error_details
    then RecommendedAction.wait_for_maturity
    else if s.submission_status == SubmissionStatus.submission_unknown
    then RecommendedAction.wait_for_reconciliation
    else if s.workflow_status == WorkflowStatus.reconciling
        || s.workflow_status == WorkflowStatus.waiting_confirmations
    then RecommendedAction.wait_for_reconciliation
    else if s.chain_status == ChainStatus.rejected
        || s.submission_status == SubmissionStatus.node_rejected
    then RecommendedAction.manual_review
    else RecommendedAction.no_action

unfoldable pub derive_recommended_action :
    ExecutionSnapshot → Option ConflictType → Option String → Json → Json → ℕ → RecommendedAction
unfolding recovery_for_domain suspected_action submission_action waits_for_maturity
derive_recommended_action s conflict_type assertion_status conflict_details error_details required =
    if status_is assertion_status "FAILED"
      || conflict_type == some ConflictType.expected_cell_assertion_failed
      || conflict_type == some ConflictType.signed_payload_mismatch
    then RecommendedAction.manual_review
    else if s.workflow_status == WorkflowStatus.confirmed
    then if is_settlement_ready s assertion_status required conflict_type
      then RecommendedAction.no_action
      else RecommendedAction.wait_for_reconciliation
    else if conflict_type == some ConflictType.input_spent
    then recovery_for_domain (conflict_domain_from_details conflict_details)
    else if s.workflow_status == WorkflowStatus.reorged
        || conflict_type == some ConflictType.reorg_conflict
    then RecommendedAction.reconcile_canonical_state
    else if conflict_type == some ConflictType.input_conflict_suspected
    then suspected_action conflict_details
    else submission_action s error_details
