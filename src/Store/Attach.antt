-- ===== src/Store/Attach.antt =====
-- packages/db/src/repository.ts: `attachTransaction` up to its transaction, the inputs that it
-- persists and the guard of a replacement. Whether `JSON.stringify` gives the same text for stored
-- inputs as for new ones depends on how the database returns a document, so it is an argument.
pub mod Overlap
pub mod Guards
pub mod Transaction
pub mod Write
use cell_flow.Prelude.{
  ℕ, Bool, true, false, not, ◌&&◌, ◌||◌, List, [], ◌∷◌, map, Option, none, some, String,
  if◌then◌else◌, ◌==◌, string_eq, option_eq, any, is_none, nat_beq,
}
use cell_flow.Prelude.Letters.{lower_text}
use cell_flow.Core.Status.{
  SubmissionStatus, ChainStatus, WorkflowStatus, InputRole, AttemptKind, submission_eq, chain_eq,
  workflow_eq, kind_eq,
}
use cell_flow.Core.Types.{OutPointRef, InputRef}
use cell_flow.Core.Settlement.{truthy}
use cell_flow.Store.Rows.{ExecutionRecord, TransactionAttemptRecord, IntentAggregate}
use cell_flow.Store.Errors.{StoreError, Stored, stored, refused, refuse_if, ◌>>=◌, ◌>>◌}

-- In `input_out_points`, `input_refs` and `attempt_kind`, `none` is `undefined`.
pub record AttachInput : Type 0 where
  pub aggregate : IntentAggregate
  pub tx_hash : String
  pub signed_payload_hash_sha256 : Option String
  pub allow_signed_payload_revision : Bool
  pub submission_status : SubmissionStatus
  pub input_out_points : Option (List OutPointRef)
  pub input_refs : Option (List InputRef)
  pub attempt_kind : Option AttemptKind
  pub parent_attempt_id : Option String
  pub next_reconcile_at : Option String
  pub from_status : String
  pub to_status : String
  pub reason : String

unfoldable pub same_hash : AttachInput → Bool
same_hash i = i.aggregate.execution.tx_hash == some i.tx_hash

unfoldable pub creating : AttachInput → Bool
unfolding same_hash
creating i = not (same_hash i)

unfoldable pub kind_of : AttachInput → AttemptKind
kind_of i = elim i.attempt_kind [
  | some k ↦ k
  | none ↦ if truthy i.aggregate.execution.tx_hash then AttemptKind.rebuild else AttemptKind.initial
]

-- `given && given.length > 0 ? given : otherwise`.
abbrev pub given_some {ℓ} : {A : Type ℓ} → Option (List A) → List A → List A
given_some none otherwise = otherwise
given_some (some []) otherwise = otherwise
given_some (some (a ∷ as')) otherwise = a ∷ as'

unfoldable pub persisted_inputs : AttachInput → List OutPointRef
persisted_inputs i =
    given_some i.input_out_points
      (if same_hash i then i.aggregate.execution.input_out_points else [])

neutral_input_refs : List OutPointRef → List InputRef
neutral_input_refs = map λ o. record { out_point = o; role = InputRole.other; resource_key = none }

-- `values.length > 0`.
abbrev pub given {ℓ} : {A : Type ℓ} → List A → Bool
given [] = false
given (a ∷ as') = true

unfoldable pub persisted_input_refs : AttachInput → List InputRef
unfolding neutral_input_refs
persisted_input_refs i = given_some i.input_refs (
    if given (persisted_inputs i)
    then neutral_input_refs (persisted_inputs i)
    else if same_hash i
    then i.aggregate.execution.input_refs
    else [])

unfoldable pub is_finalized : ExecutionRecord → Bool
is_finalized e =
    e.chain_status == ChainStatus.committed || e.workflow_status == WorkflowStatus.confirmed

unfoldable pub potentially_live : ExecutionRecord → Bool
potentially_live e =
    e.submission_status == SubmissionStatus.broadcasting
    || e.submission_status == SubmissionStatus.submission_unknown
    || e.submission_status == SubmissionStatus.submitted
    || e.chain_status == ChainStatus.pending
    || e.chain_status == ChainStatus.proposed

-- The keys `${txHash.toLowerCase()}:${index}` are equal: the last colon parts hash and index.
unfoldable pub same_key : OutPointRef → OutPointRef → Bool
same_key p q = lower_text p.tx_hash == lower_text q.tx_hash && nat_beq p.index q.index

unfoldable pub shares_input : List OutPointRef → List OutPointRef → Bool
shares_input mine theirs = any (λ p. any (same_key p) theirs) mine

-- The parent of an RBF replacement.
unfoldable pub check_parent : AttachInput → Option TransactionAttemptRecord → Stored (Unit {0})
check_parent i none = refused StoreError.attempt_parent_conflict
check_parent i (some parent) = do
  refuse_if (truthy i.parent_attempt_id && not (i.parent_attempt_id == some parent.id))
      StoreError.attempt_parent_conflict
  refuse_if (not (shares_input (persisted_inputs i) parent.input_out_points))
      StoreError.rbf_inputs_do_not_overlap

check_current : AttachInput → Stored (Unit {0})
unfolding check_parent
check_current i = do
  refuse_if (kind_of i == AttemptKind.initial) StoreError.attempt_kind_invalid
  refuse_if (is_finalized i.aggregate.execution) StoreError.unsafe_attempt_replacement
  refuse_if
      (potentially_live i.aggregate.execution && not (kind_of i == AttemptKind.rbf_replacement))
      StoreError.unsafe_attempt_replacement
  if kind_of i == AttemptKind.rbf_replacement
      then check_parent i i.aggregate.active_attempt
      else stored tt

-- The tests before the transaction.
unfoldable pub check_replacement : AttachInput → Stored (Unit {0})
unfolding check_current
check_replacement i =
    if creating i && truthy i.aggregate.execution.tx_hash then check_current i else stored tt
