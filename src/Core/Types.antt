-- ===== src/Core/Types.antt =====
-- packages/core/src/types.ts: the records of the state machine.
use cell_flow.Prelude.{ℕ, Bool, Option, String}
use cell_flow.Core.Status.{SubmissionStatus, ChainStatus, WorkflowStatus, InputRole}

pub data OverallStatus : Type 0 where
  created prepared submitting submitted unknown pending proposed committed : OverallStatus
  confirmed reconciling reorged rejected node_rejected conflicted expired : OverallStatus

abbrev pub overall_text : OverallStatus → String
overall_text OverallStatus.created = "CREATED"
overall_text OverallStatus.prepared = "PREPARED"
overall_text OverallStatus.submitting = "SUBMITTING"
overall_text OverallStatus.submitted = "SUBMITTED"
overall_text OverallStatus.unknown = "UNKNOWN"
overall_text OverallStatus.pending = "PENDING"
overall_text OverallStatus.proposed = "PROPOSED"
overall_text OverallStatus.committed = "COMMITTED"
overall_text OverallStatus.confirmed = "CONFIRMED"
overall_text OverallStatus.reconciling = "RECONCILING"
overall_text OverallStatus.reorged = "REORGED"
overall_text OverallStatus.rejected = "REJECTED"
overall_text OverallStatus.node_rejected = "NODE_REJECTED"
overall_text OverallStatus.conflicted = "CONFLICTED"
overall_text OverallStatus.expired = "EXPIRED"

pub data RecommendedAction : Type 0 where
  no_action wait_for_reconciliation wait_and_reconcile rebuild_from_live_state : RecommendedAction
  recollect_wallet_inputs rebuild_and_resign reconcile_canonical_state : RecommendedAction
  wait_for_maturity manual_review : RecommendedAction

pub data SubmissionErrorType : Type 0 where
  transport_unknown rpc_rejection hash_mismatch : SubmissionErrorType

pub record OutPointRef : Type 0 where
  pub tx_hash : String
  pub index : ℕ

pub record InputRef : Type 0 where
  pub out_point : OutPointRef
  pub role : InputRole
  pub resource_key : Option String

pub data ConfirmationPolicy : Type 0 where
  at_commit : ConfirmationPolicy
  depth : ℕ → ConfirmationPolicy

pub record ExecutionSnapshot : Type 0 where
  pub submission_status : SubmissionStatus
  pub chain_status : ChainStatus
  pub workflow_status : WorkflowStatus
  pub confirmation_policy : ConfirmationPolicy
  pub confirmation_count : ℕ
  pub committed_block_hash : Option String
  pub committed_block_number : Option String
  pub rejection_reason : Option String

-- `Exclude<ChainStatus, "UNOBSERVED">`.
pub data ObservedStatus : Type 0 where
  unknown pending proposed committed rejected : ObservedStatus

abbrev pub to_chain : ObservedStatus → ChainStatus
to_chain ObservedStatus.unknown = ChainStatus.unknown
to_chain ObservedStatus.pending = ChainStatus.pending
to_chain ObservedStatus.proposed = ChainStatus.proposed
to_chain ObservedStatus.committed = ChainStatus.committed
to_chain ObservedStatus.rejected = ChainStatus.rejected

-- `raw`, the copy of the RPC's answer that is stored and never read, is left out.
pub record ChainObservation : Type 0 where
  pub status : ObservedStatus
  pub observed_at : String
  pub block_hash : Option String
  pub block_number : Option String
  pub tip_block_number : Option String
  pub rejection_reason : Option String
  pub rpc_endpoint : Option String
  pub canonical_block_hash : Option String
  pub prior_commit_canonical : Option Bool

-- The kinds that `applyChainObservation` gives its events.
pub data EventKind : Type 0 where
  chain_observed reorg_detected confirmed : EventKind

pub record TransitionEvent : Type 0 where
  pub kind : EventKind
  pub from_overall : OverallStatus
  pub to_overall : OverallStatus
  pub at : String
  pub reason : Option String
  pub observation : ChainObservation

pub record ApplyObservationResult : Type 0 where
  pub snapshot : ExecutionSnapshot
  pub event : TransitionEvent
  pub reorg_detected : Bool
