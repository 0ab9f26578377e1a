-- ===== src/Core/Status.antt =====
-- packages/core/src/types.ts: the statuses, with `===` on each.
use cell_flow.Prelude.{ℕ, ◌≡◌, ◌↔◌, Bool, true, arith, Eq, nat_beq}

-- types.ts `submissionStatuses`.
pub data SubmissionStatus : Type 0 where
  not_submitted prepared broadcasting submitted submission_unknown node_rejected : SubmissionStatus

abbrev pub submission_rank : SubmissionStatus → ℕ
submission_rank SubmissionStatus.not_submitted = 0
submission_rank SubmissionStatus.prepared = 1
submission_rank SubmissionStatus.broadcasting = 2
submission_rank SubmissionStatus.submitted = 3
submission_rank SubmissionStatus.submission_unknown = 4
submission_rank SubmissionStatus.node_rejected = 5

abbrev pub submission_beq : SubmissionStatus → SubmissionStatus → Bool
submission_beq a b = nat_beq (submission_rank a) (submission_rank b)

pub submission_beq_iff : (a b : SubmissionStatus) → (submission_beq a b ≡ true) ↔ (a ≡ b)
submission_beq_iff a b = ground arith

instance abbrev pub submission_eq : Eq SubmissionStatus
submission_eq = record { beq = submission_beq; beq_iff = submission_beq_iff }

-- `chainStatuses`.
pub data ChainStatus : Type 0 where
  unobserved unknown pending proposed committed rejected : ChainStatus

abbrev pub chain_rank : ChainStatus → ℕ
chain_rank ChainStatus.unobserved = 0
chain_rank ChainStatus.unknown = 1
chain_rank ChainStatus.pending = 2
chain_rank ChainStatus.proposed = 3
chain_rank ChainStatus.committed = 4
chain_rank ChainStatus.rejected = 5

abbrev pub chain_beq : ChainStatus → ChainStatus → Bool
chain_beq a b = nat_beq (chain_rank a) (chain_rank b)

pub chain_beq_iff : (a b : ChainStatus) → (chain_beq a b ≡ true) ↔ (a ≡ b)
chain_beq_iff a b = ground arith

instance abbrev pub chain_eq : Eq ChainStatus
chain_eq = record { beq = chain_beq; beq_iff = chain_beq_iff }

-- `workflowStatuses`.
pub data WorkflowStatus : Type 0 where
  idle reconciling waiting_confirmations confirmed reorged conflicted expired : WorkflowStatus

abbrev pub workflow_rank : WorkflowStatus → ℕ
workflow_rank WorkflowStatus.idle = 0
workflow_rank WorkflowStatus.reconciling = 1
workflow_rank WorkflowStatus.waiting_confirmations = 2
workflow_rank WorkflowStatus.confirmed = 3
workflow_rank WorkflowStatus.reorged = 4
workflow_rank WorkflowStatus.conflicted = 5
workflow_rank WorkflowStatus.expired = 6

abbrev pub workflow_beq : WorkflowStatus → WorkflowStatus → Bool
workflow_beq a b = nat_beq (workflow_rank a) (workflow_rank b)

pub workflow_beq_iff : (a b : WorkflowStatus) → (workflow_beq a b ≡ true) ↔ (a ≡ b)
workflow_beq_iff a b = ground arith

instance abbrev pub workflow_eq : Eq WorkflowStatus
workflow_eq = record { beq = workflow_beq; beq_iff = workflow_beq_iff }

-- `ConflictDomain`.
pub data ConflictDomain : Type 0 where
  application wallet mixed unknown : ConflictDomain

abbrev pub domain_rank : ConflictDomain → ℕ
domain_rank ConflictDomain.application = 0
domain_rank ConflictDomain.wallet = 1
domain_rank ConflictDomain.mixed = 2
domain_rank ConflictDomain.unknown = 3

abbrev pub domain_beq : ConflictDomain → ConflictDomain → Bool
domain_beq a b = nat_beq (domain_rank a) (domain_rank b)

pub domain_beq_iff : (a b : ConflictDomain) → (domain_beq a b ≡ true) ↔ (a ≡ b)
domain_beq_iff a b = ground arith

instance abbrev pub domain_eq : Eq ConflictDomain
domain_eq = record { beq = domain_beq; beq_iff = domain_beq_iff }

-- `conflictTypes`.
pub data ConflictType : Type 0 where
  input_conflict_suspected input_spent expected_cell_assertion_failed reorg_conflict
        signed_payload_mismatch other :
      ConflictType

abbrev pub conflict_rank : ConflictType → ℕ
conflict_rank ConflictType.input_conflict_suspected = 0
conflict_rank ConflictType.input_spent = 1
conflict_rank ConflictType.expected_cell_assertion_failed = 2
conflict_rank ConflictType.reorg_conflict = 3
conflict_rank ConflictType.signed_payload_mismatch = 4
conflict_rank ConflictType.other = 5

abbrev pub conflict_beq : ConflictType → ConflictType → Bool
conflict_beq a b = nat_beq (conflict_rank a) (conflict_rank b)

pub conflict_beq_iff : (a b : ConflictType) → (conflict_beq a b ≡ true) ↔ (a ≡ b)
conflict_beq_iff a b = ground arith

instance abbrev pub conflict_eq : Eq ConflictType
conflict_eq = record { beq = conflict_beq; beq_iff = conflict_beq_iff }

-- `inputRoles`.
pub data InputRole : Type 0 where
  application_state wallet_funding fee dependency other : InputRole

abbrev pub role_rank : InputRole → ℕ
role_rank InputRole.application_state = 0
role_rank InputRole.wallet_funding = 1
role_rank InputRole.fee = 2
role_rank InputRole.dependency = 3
role_rank InputRole.other = 4

abbrev pub role_beq : InputRole → InputRole → Bool
role_beq a b = nat_beq (role_rank a) (role_rank b)

pub role_beq_iff : (a b : InputRole) → (role_beq a b ≡ true) ↔ (a ≡ b)
role_beq_iff a b = ground arith

instance abbrev pub role_eq : Eq InputRole
role_eq = record { beq = role_beq; beq_iff = role_beq_iff }

-- `attemptKinds`.
pub data AttemptKind : Type 0 where
  initial rebuild rbf_replacement manual_retry : AttemptKind

abbrev pub kind_rank : AttemptKind → ℕ
kind_rank AttemptKind.initial = 0
kind_rank AttemptKind.rebuild = 1
kind_rank AttemptKind.rbf_replacement = 2
kind_rank AttemptKind.manual_retry = 3

abbrev pub kind_beq : AttemptKind → AttemptKind → Bool
kind_beq a b = nat_beq (kind_rank a) (kind_rank b)

pub kind_beq_iff : (a b : AttemptKind) → (kind_beq a b ≡ true) ↔ (a ≡ b)
kind_beq_iff a b = ground arith

instance abbrev pub kind_eq : Eq AttemptKind
kind_eq = record { beq = kind_beq; beq_iff = kind_beq_iff }

-- `attemptDispositions`.
pub data AttemptDisposition : Type 0 where
  active superseded confirmed rejected conflicted abandoned : AttemptDisposition

abbrev pub disposition_rank : AttemptDisposition → ℕ
disposition_rank AttemptDisposition.active = 0
disposition_rank AttemptDisposition.superseded = 1
disposition_rank AttemptDisposition.confirmed = 2
disposition_rank AttemptDisposition.rejected = 3
disposition_rank AttemptDisposition.conflicted = 4
disposition_rank AttemptDisposition.abandoned = 5

abbrev pub disposition_beq : AttemptDisposition → AttemptDisposition → Bool
disposition_beq a b = nat_beq (disposition_rank a) (disposition_rank b)

pub disposition_beq_iff : (a b : AttemptDisposition) → (disposition_beq a b ≡ true) ↔ (a ≡ b)
disposition_beq_iff a b = ground arith

instance abbrev pub disposition_eq : Eq AttemptDisposition
disposition_eq = record { beq = disposition_beq; beq_iff = disposition_beq_iff }
