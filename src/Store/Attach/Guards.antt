-- ===== src/Store/Attach/Guards.antt =====
-- packages/db/src/repository.ts: what the guards of `attachTransaction` rule out.
use cell_flow.Store.Attach.Transaction.Attempts.{rbf_adds, numbered_below}
use cell_flow.Prelude.{
  ◌≡◌, ◌≢◌, ◌<◌, true, false, some, none, arith, ap, ◌∙◌, string_eq, option_eq, not, [], ◌∷◌, ◌++◌,
  All, option_beq_iff, Bool-cases, inl, inr, ◌⊎◌, refl, ◌==◌,
}
use cell_flow.Core.Status.{
  AttemptKind, kind_eq, AttemptDisposition, SubmissionStatus, ChainStatus, WorkflowStatus,
}
use cell_flow.Core.Settlement.{truthy}
use cell_flow.Store.Rows.{TransactionAttemptRecord, same_version}
use cell_flow.Store.Errors.{stored, StoreError, refuse_if, >>=-eq-stored, refuse_if-eq-stored}
use cell_flow.Store.Attach.{
  AttachInput, creating, kind_of, is_finalized, potentially_live, check_current, check_replacement,
  same_hash, IntentAggregate, ExecutionRecord,
}
use cell_flow.Store.Attach.Transaction.{Tables, AttachDraws, Attachment, attach_attempt, hash_owner}
use cell_flow.Store.Attach.Write.{attach_transaction, attached_tables, attached_execution}
use cell_flow.Store.Attach.Overlap.{IsOverlapping, check_parent-IsOverlapping}

attach_inversion :
    (d : AttachDraws) (i : AttachInput) (before after : Tables)
    → attach_transaction d i before ≡ stored after
    → (t : Attachment) × (check_replacement i ≡ stored tt)
      × (attach_attempt d i before.rows.attempts ≡ stored t)
      × (after ≡ attached_tables d i t before)
unfolding attach_transaction
attach_inversion d i before after h =
    let (checked, c, h1) = >>=-eq-stored (check_replacement i) _ h in
    let (t, k, h2) = >>=-eq-stored (attach_attempt d i before.rows.attempts) _ h1 in
    let (found, _, h3) =
      >>=-eq-stored
        (refuse_if (not (same_version i.aggregate before.rows.execution)) StoreError.changed) _
        h2 in
    (t, c, k, cc h3)

-- The node was not given the transaction, or rejected it, and the chain does not show it.
pub record IsAtRest (e : ExecutionRecord) : Type 0 where
  pub unsent :
      (e.submission_status ≡ SubmissionStatus.not_submitted)
      ⊎ (e.submission_status ≡ SubmissionStatus.prepared)
      ⊎ (e.submission_status ≡ SubmissionStatus.node_rejected)
  pub unseen :
      (e.chain_status ≡ ChainStatus.unobserved)
      ⊎ (e.chain_status ≡ ChainStatus.unknown)
      ⊎ (e.chain_status ≡ ChainStatus.rejected)

-- What a replacement of the current transaction needs.
pub record IsSafeReplacement (i : AttachInput) : Type 0 where
  pub not_committed : i.aggregate.execution.chain_status ≢ ChainStatus.committed
  pub not_confirmed : i.aggregate.execution.workflow_status ≢ WorkflowStatus.confirmed
  pub deliberate : i.attempt_kind ≢ some AttemptKind.initial
  pub at_rest_or_rbf : IsAtRest i.aggregate.execution ⊎ IsOverlapping i

named_rbf :
    (i : AttachInput)
    → truthy i.aggregate.execution.tx_hash ≡ true
    → kind_of i == AttemptKind.rbf_replacement ≡ true
    → i.attempt_kind ≡ some AttemptKind.rbf_replacement
unfolding kind_of
named_rbf i t rbf = ground arith

check_current-IsSafeReplacement :
    (i : AttachInput)
    → same_hash i ≡ false
    → truthy i.aggregate.execution.tx_hash ≡ true
    → check_current i ≡ stored tt
    → IsSafeReplacement i
unfolding check_current is_finalized potentially_live kind_of
check_current-IsSafeReplacement i n t h = record {
  not_committed = ground arith;
  not_confirmed = ground arith;
  deliberate = ground arith;
  at_rest_or_rbf = elim (Bool-cases (kind_of i == AttemptKind.rbf_replacement)) [
    | inl rbf ↦ inr (
        check_parent-IsOverlapping i i.aggregate.active_attempt refl (named_rbf i t rbf) n
          (ground arith))
    | inr other ↦ inl (record { unsent = ground arith; unseen = ground arith })
  ];
}

-- A new transaction hash replaces another one only while the current transaction is neither
-- committed nor confirmed, and never as an INITIAL attempt. Unless the current transaction was not
-- given to the node or was rejected by it, and the chain does not show it, the replacement is an
-- RBF_REPLACEMENT whose own inputs spend a Cell that the active attempt spends.
pub attach_transaction-IsSafeReplacement :
    (d : AttachDraws) (i : AttachInput) (before after : Tables)
    → attach_transaction d i before ≡ stored after
    → i.aggregate.execution.tx_hash ≢ some i.tx_hash
    → truthy i.aggregate.execution.tx_hash ≡ true
    → IsSafeReplacement i
unfolding check_replacement creating same_hash
attach_transaction-IsSafeReplacement d i before after h n t =
    let (a, c, _, _) = attach_inversion d i before after h in
    let new : same_hash i ≡ false = ground (
      arith,
      option_beq_iff string_eq.beq string_eq.beq_iff i.aggregate.execution.tx_hash (some i.tx_hash),
    ) in
    check_current-IsSafeReplacement i new t (ground (arith, new))

-- An accepted RBF_REPLACEMENT by a new hash abandons no candidate: every attempt of the project is
-- left as it was, and one ACTIVE attempt with the new hash is added, whose number lies above that of
-- every other attempt of the intent.
pub rbf_keeps_candidates :
    (d : AttachDraws) (i : AttachInput) (before after : Tables)
    → attach_transaction d i before ≡ stored after
    → hash_owner i before.rows.attempts ≡ none
    → kind_of i ≡ AttemptKind.rbf_replacement
    → (new : TransactionAttemptRecord) × (after.rows.attempts ≡ before.rows.attempts ++ new ∷ [])
      × (new.disposition ≡ AttemptDisposition.active)
      × (new.tx_hash ≡ i.tx_hash)
      × All
          (λ a. a.intent_row_id ≡ i.aggregate.intent.id → a.attempt_number < new.attempt_number)
          before.rows.attempts
unfolding attached_tables
rbf_keeps_candidates d i before after h n k =
    let (t, _, made, e) = attach_inversion d i before after h in
    let (new, table, active, hash, number) = rbf_adds d i before.rows.attempts t made n k in
    (
      new,
      ap (λ (x : Tables). x.rows.attempts) e ∙ table,
      active,
      hash,
      numbered_below i.aggregate.intent.id before.rows.attempts new.attempt_number number,
    )

same_version-version :
    (g : IntentAggregate) (row : ExecutionRecord)
    → same_version g row ≡ true
    → row.version ≡ g.execution.version
unfolding same_version
same_version-version g row h = ground arith

-- What a transaction that goes through has found and done to the execution.
pub attach_effects :
    (d : AttachDraws) (i : AttachInput) (before after : Tables)
    → attach_transaction d i before ≡ stored after
    → (before.rows.execution.version ≡ i.aggregate.execution.version)
      × (after.rows.execution ≡ attached_execution d i before.rows.execution)
      × (check_replacement i ≡ stored tt)
unfolding attach_transaction attached_tables
attach_effects d i before after h =
    let (checked, c, h1) = >>=-eq-stored (check_replacement i) _ h in
    let (t, _, h2) = >>=-eq-stored (attach_attempt d i before.rows.attempts) _ h1 in
    let (found, f, h3) =
      >>=-eq-stored
        (refuse_if (not (same_version i.aggregate before.rows.execution)) StoreError.changed) _
        h2 in
    let n = refuse_if-eq-stored (not (same_version i.aggregate before.rows.execution)) _ f in
    (same_version-version i.aggregate before.rows.execution (ground arith), ground arith, c)
