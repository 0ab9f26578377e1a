-- ===== src/Store/Attach/Transaction.antt =====
-- packages/db/src/repository.ts: the transaction of `attachTransaction`. The unique indexes of the
-- database refuse nothing that the transaction's own queries let through.
pub mod Attempts
use cell_flow.Prelude.{
  ℕ, ◌+◌, Bool, false, not, ◌&&◌, ◌||◌, List, [], ◌∷◌, ◌++◌, map, Option, none, some, String,
  if◌then◌else◌, ◌==◌, string_eq, option_eq, any, find, max,
}
use cell_flow.Prelude.Letters.{lower_text}
use cell_flow.Json.{Json}
use cell_flow.Core.Status.{
  SubmissionStatus, ChainStatus, WorkflowStatus, AttemptKind, AttemptDisposition, submission_eq,
  chain_eq, workflow_eq, kind_eq,
}
use cell_flow.Core.Types.{OutPointRef, InputRef}
use cell_flow.Core.Settlement.{truthy}
use cell_flow.Store.Rows.{ExecutionRecord, TransactionAttemptRecord}
use cell_flow.Store.Apply.{Rows}
use cell_flow.Store.Errors.{StoreError, Stored, stored, refuse_if, ◌>>◌}
use cell_flow.Store.Attach.{AttachInput, kind_of, persisted_inputs, persisted_input_refs, given}

pub data RevisionKind : Type 0 where
  initial cosignature manual_replacement : RevisionKind

-- A row of `signed_payload_revisions`.
pub record Revision : Type 0 where
  pub attempt_id : String
  pub revision_number : ℕ
  pub payload_hash_sha256 : String
  pub revision_kind : RevisionKind

-- The rows of the intent, with the attempts of the whole project, and the revisions.
pub record Tables : Type 0 where
  pub rows : Rows
  pub revisions : List Revision

-- The clocks of the database and of the caller, the identifiers that the call may draw, the text
-- comparison of stored inputs with new ones, and the document that the event keeps.
pub record AttachDraws : Type 0 where
  pub now : String
  pub at : String
  pub attempt_id : String
  pub event_id : String
  pub same_inputs : List OutPointRef → List OutPointRef → Bool
  pub same_refs : List InputRef → List InputRef → Bool
  pub details : String → ℕ → Json

-- `hashOwner[0]`.
unfoldable pub hash_owner :
    AttachInput → List TransactionAttemptRecord → Option TransactionAttemptRecord
hash_owner i table =
    find (λ a. a.project_id == i.aggregate.intent.project_id && a.tx_hash == i.tx_hash) table

-- Whether a stored fingerprint is another one than the new one.
revises : AttachInput → TransactionAttemptRecord → Bool
revises i a = elim i.signed_payload_hash_sha256 [
  | none ↦ false
  | some new ↦ elim a.signed_payload_hash_sha256 [
    | none ↦ false
    | some old ↦ not (new == "") && not (old == "") && not (lower_text old == lower_text new)
  ]
]

check_owner : AttachDraws → AttachInput → TransactionAttemptRecord → Stored (Unit {0})
unfolding revises
check_owner d i a = do
  refuse_if (not (a.intent_row_id == i.aggregate.intent.id)) StoreError.tx_hash_conflict
  refuse_if
      (given (persisted_inputs i) && not (d.same_inputs a.input_out_points (persisted_inputs i)))
      StoreError.attempt_input_conflict
  refuse_if
      (given (persisted_input_refs i) && not (d.same_refs a.input_refs (persisted_input_refs i)))
      StoreError.attempt_input_conflict
  refuse_if (revises i a && not i.allow_signed_payload_revision)
      StoreError.attempt_signed_payload_conflict

-- `coalesce(max(attempt_number), 0)` of the intent.
unfoldable pub max_number : String → List TransactionAttemptRecord → ℕ
max_number intent [] = 0
max_number intent (a ∷ as') =
    let rest = max_number intent as' in
    if a.intent_row_id == intent then max a.attempt_number rest else rest

-- `left ?? right`.
abbrev pub either_of : Option String → Option String → Option String
either_of none right = right
either_of (some l) right = some l

parent_of : AttachInput → Option String
parent_of i = either_of i.parent_attempt_id i.aggregate.intent.active_attempt_id

check_parent_row : AttachInput → List TransactionAttemptRecord → Stored (Unit {0})
unfolding parent_of
check_parent_row i table =
    refuse_if
      (truthy (parent_of i)
        && not
            (any (λ a. some a.id == parent_of i && a.intent_row_id == i.aggregate.intent.id) table))
      StoreError.attempt_parent_conflict

unfoldable pub prior_attempt_disposition : ExecutionRecord → AttemptDisposition
prior_attempt_disposition e =
    if e.workflow_status == WorkflowStatus.confirmed
    then AttemptDisposition.confirmed
    else if e.workflow_status == WorkflowStatus.conflicted
    then AttemptDisposition.conflicted
    else if e.chain_status == ChainStatus.rejected
        || e.submission_status == SubmissionStatus.node_rejected
    then AttemptDisposition.rejected
    else AttemptDisposition.superseded

-- The update of the attempt that was active.
retire : AttachDraws → AttachInput → TransactionAttemptRecord → TransactionAttemptRecord
retire d i a =
    if some a.id == i.aggregate.intent.active_attempt_id && a.intent_row_id == i.aggregate.intent.id
    then record a {
      disposition = prior_attempt_disposition i.aggregate.execution;
      updated_at = d.now;
    }
    else a

new_attempt : AttachDraws → AttachInput → ℕ → TransactionAttemptRecord
unfolding parent_of
new_attempt d i number = record {
  id = d.attempt_id;
  project_id = i.aggregate.intent.project_id;
  intent_row_id = i.aggregate.intent.id;
  attempt_number = number;
  tx_hash = i.tx_hash;
  signed_payload_hash_sha256 = i.signed_payload_hash_sha256;
  parent_attempt_id = parent_of i;
  attempt_kind = kind_of i;
  disposition = AttemptDisposition.active;
  input_out_points = persisted_inputs i;
  input_refs = persisted_input_refs i;
  submission_status = i.submission_status;
  chain_status = ChainStatus.unobserved;
  workflow_status = WorkflowStatus.idle;
  submission_error_code = none;
  submission_error_type = none;
  submission_error_details = Json.null;
  conflict_type = none;
  conflict_details = Json.null;
  created_at = d.now;
  updated_at = d.now;
}

-- The update of an attempt that has the hash already.
renewed : AttachDraws → AttachInput → TransactionAttemptRecord → TransactionAttemptRecord
renewed d i a = record a {
  submission_status = i.submission_status;
  signed_payload_hash_sha256 = either_of i.signed_payload_hash_sha256 a.signed_payload_hash_sha256;
  input_out_points = persisted_inputs i;
  input_refs = persisted_input_refs i;
  updated_at = d.now;
}

-- The attempt that is attached: its identifier, its number, and the table after it.
pub record Attachment : Type 0 where
  pub id : String
  pub number : ℕ
  pub attempts : List TransactionAttemptRecord

insert_attempt : AttachDraws → AttachInput → List TransactionAttemptRecord → Stored Attachment
unfolding check_parent_row retire new_attempt
insert_attempt d i table = do
  check_parent_row i table
  let number = max_number i.aggregate.intent.id table + 1
  let others =
      (if truthy i.aggregate.intent.active_attempt_id
          && not (kind_of i == AttemptKind.rbf_replacement)
        then map (retire d i) table
        else table)
  stored (record {
    id = d.attempt_id;
    number = number;
    attempts = others ++ new_attempt d i number ∷ [];
  })

-- `attempts.at(-1)?.attemptNumber ?? 0`.
last_number : List TransactionAttemptRecord → ℕ
last_number [] = 0
last_number (a ∷ []) = a.attempt_number
last_number (a ∷ b ∷ bs) = last_number (b ∷ bs)

keep_attempt :
    AttachDraws
    → AttachInput
    → List TransactionAttemptRecord
    → TransactionAttemptRecord
    → Stored Attachment
unfolding check_owner renewed last_number
keep_attempt d i table a = do
  check_owner d i a
  stored (record {
    id = a.id;
    number = last_number i.aggregate.attempts;
    attempts = map (λ b. if b.id == a.id then renewed d i b else b) table;
  })

unfoldable pub attach_attempt :
    AttachDraws → AttachInput → List TransactionAttemptRecord → Stored Attachment
unfolding insert_attempt keep_attempt
attach_attempt d i table = elim (hash_owner i table) [
  | none ↦ insert_attempt d i table
  | some a ↦ keep_attempt d i table a
]
