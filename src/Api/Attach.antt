-- ===== src/Api/Attach.antt =====
-- apps/api/src/service.ts: `attachTransaction`, the registration of a transaction for an intent.
-- What each attempt reads and what it then meets in the database are arguments; the intent exists,
-- and the view that is returned is left out.
pub mod Registered
use cell_flow.Prelude.{
  ℕ, Bool, true, false, not, ◌&&◌, ◌||◌, List, [], ◌∷◌, map, Option, none, some, String,
  if◌then◌else◌, ◌==◌, string_eq, option_eq, nat_beq,
}
use cell_flow.Prelude.Letters.{lower_text, text_append}
use cell_flow.Core.Status.{SubmissionStatus, AttemptKind, submission_eq}
use cell_flow.Core.Types.{OutPointRef, InputRef, ExecutionSnapshot, overall_text}
use cell_flow.Core.Errors.{ErrorCode, CellFlowError, Result, ok, err, failure}
use cell_flow.Core.Settlement.{truthy, derive_overall_status}
use cell_flow.Core.Submission.{update_submission}
use cell_flow.Core.Observation.{initial_snapshot}
use cell_flow.Core.Validation.{normalize_tx_hash, normalize_out_point_refs, normalize_input_refs}
use cell_flow.Store.Rows.{IntentAggregate, ExecutionRecord, snapshot_from_execution}
use cell_flow.Store.Errors.{StoreError, Stored, stored, refused}
use cell_flow.Store.Reading.{get_intent}
use cell_flow.Store.Attach.{AttachInput, given}
use cell_flow.Store.Attach.Transaction.{Tables, AttachDraws}
use cell_flow.Store.Attach.Write.{attach_transaction}
use cell_flow.Api.Retry.{
  Thrown, Call, returned, threw, from_result, throw_when, ◌>>=◌, ◌>>◌, three_attempts,
}

-- In the optional lists and the kind, `none` is `undefined`.
pub record AttachRequest : Type 0 where
  pub tx_hash : String
  pub submission_status : SubmissionStatus
  pub signed_payload_hash_sha256 : Option String
  pub input_out_points : Option (List OutPointRef)
  pub input_refs : Option (List InputRef)
  pub attempt_kind : Option AttemptKind
  pub parent_attempt_id : Option String
  pub allow_signed_payload_revision : Bool

pub record AttachEncounter : Type 0 where
  pub seen : Tables
  pub met : Tables
  pub draws : AttachDraws

-- `value === undefined ? undefined : f(value)`.
abbrev pub optional {ℓ κ} :
    {A : Type ℓ} {B : Type κ} → (A → Result B) → Option A → Result (Option B)
optional f none = ok none
optional f (some a) = elim (f a) [ ok b ↦ ok (some b) | err e ↦ err e ]

-- `JSON.stringify(a) === JSON.stringify(b)` for OutPoints that the code has just built.
same_points : List OutPointRef → List OutPointRef → Bool
same_points [] [] = true
same_points [] (q ∷ qs) = false
same_points (p ∷ ps) [] = false
same_points (p ∷ ps) (q ∷ qs) =
    p.tx_hash == q.tx_hash && nat_beq p.index q.index && same_points ps qs

-- Both are given, and not empty, and name other inputs.
unfoldable pub disagree : Option (List OutPointRef) → Option (List InputRef) → Bool
unfolding same_points
disagree (some inputs) (some refs) =
    given refs && given inputs && not (same_points (map (λ r. r.out_point) refs) inputs)
disagree _ _ = false

abbrev pub conflict : CellFlowError
conflict = failure ErrorCode.intent_conflict 409

-- Whether given inputs are refused against the stored ones.
stored_differ {ℓ} : {A : Type ℓ} → (List A → List A → Bool) → List A → Option (List A) → Bool
stored_differ same old none = false
stored_differ same old (some new) = given new && given old && not (same old new)

abbrev pub kind_name : AttemptKind → String
kind_name AttemptKind.initial = "INITIAL"
kind_name AttemptKind.rebuild = "REBUILD"
kind_name AttemptKind.rbf_replacement = "RBF_REPLACEMENT"
kind_name AttemptKind.manual_retry = "MANUAL_RETRY"

unfoldable pub replacing_hash : IntentAggregate → String → Bool
replacing_hash current hash =
    truthy current.execution.tx_hash && not (current.execution.tx_hash == some hash)

-- The snapshot that the submission starts from.
unfoldable pub base_snapshot : IntentAggregate → String → ExecutionSnapshot
base_snapshot current hash =
    if replacing_hash current hash
    then initial_snapshot current.execution.confirmation_policy
    else snapshot_from_execution current.execution

effective_kind : IntentAggregate → String → Option AttemptKind → AttemptKind
effective_kind current hash (some k) = k
effective_kind current hash none =
    if replacing_hash current hash then AttemptKind.rebuild else AttemptKind.initial

attach_reason : IntentAggregate → String → AttemptKind → SubmissionStatus → String
attach_reason current hash kind status =
    if replacing_hash current hash
    then text_append "New " (
        text_append (kind_name kind)
          " transaction attempt persisted under the existing business intent")
    else if status == SubmissionStatus.prepared
    then "Deterministic transaction hash persisted before broadcast"
    else "Transaction hash registered for reconciliation"

-- `text ? { field: text.toLowerCase() } : {}`.
lowered : Option String → Option String
lowered none = none
lowered (some s) = if s == "" then none else some (lower_text s)

unfoldable pub attach_input :
    AttachDraws
    → AttachRequest
    → IntentAggregate
    → String
    → Option (List OutPointRef)
    → Option (List InputRef)
    → ExecutionSnapshot
    → AttachInput
unfolding effective_kind attach_reason lowered
attach_input d r current hash inputs refs after =
    let kind = effective_kind current hash r.attempt_kind in
    record {
      aggregate = current;
      tx_hash = hash;
      signed_payload_hash_sha256 = lowered r.signed_payload_hash_sha256;
      allow_signed_payload_revision = r.allow_signed_payload_revision;
      submission_status = r.submission_status;
      input_out_points = inputs;
      input_refs = refs;
      attempt_kind = some kind;
      parent_attempt_id = r.parent_attempt_id;
      next_reconcile_at =
          if r.submission_status == SubmissionStatus.submitted then some d.at else none;
      from_status =
          overall_text (derive_overall_status (snapshot_from_execution current.execution));
      to_status = overall_text (derive_overall_status after);
      reason = attach_reason current hash kind r.submission_status;
    }

-- The `catch` of the repository's errors.
unfoldable pub caught {ℓ} : {V : Type ℓ} → Stored V → Call V
caught (stored v) = returned v
caught (refused StoreError.changed) = threw (Thrown.store StoreError.changed)
caught (refused StoreError.tx_hash_conflict) = threw (Thrown.api conflict)
caught (refused StoreError.attempt_input_conflict) = threw (Thrown.api conflict)
caught (refused StoreError.attempt_signed_payload_conflict) = threw (Thrown.api conflict)
caught (refused StoreError.attempt_parent_conflict) = threw (Thrown.api conflict)
caught (refused StoreError.attempt_kind_invalid) = threw (Thrown.api conflict)
caught (refused StoreError.unsafe_attempt_replacement) = threw (Thrown.api conflict)
caught (refused StoreError.rbf_inputs_do_not_overlap) = threw (Thrown.api conflict)

-- Evidence for the same hash must be the stored one.
unfoldable pub check_stored :
    AttachDraws
    → ExecutionRecord
    → String
    → Option (List OutPointRef)
    → Option (List InputRef)
    → Call (Unit {0})
unfolding stored_differ
check_stored d e hash inputs refs = do
  throw_when (e.tx_hash == some hash && stored_differ d.same_inputs e.input_out_points inputs)
      conflict
  throw_when (e.tx_hash == some hash && stored_differ d.same_refs e.input_refs refs) conflict

unfoldable pub attach_once :
    AttachRequest
    → String
    → Option (List OutPointRef)
    → Option (List InputRef)
    → AttachEncounter
    → Call Tables
attach_once r hash inputs refs e = do
  let current = get_intent e.seen.rows
  check_stored e.draws current.execution hash inputs refs
  after ← from_result (update_submission (base_snapshot current hash) r.submission_status)
  caught (attach_transaction e.draws (attach_input e.draws r current hash inputs refs after) e.met)

unfoldable pub attach : AttachRequest → (ℕ → AttachEncounter) → Call Tables
unfolding disagree
attach r encounters = do
  hash ← from_result (normalize_tx_hash r.tx_hash)
  inputs ← from_result (optional normalize_out_point_refs r.input_out_points)
  refs ← from_result (optional normalize_input_refs r.input_refs)
  throw_when (disagree inputs refs) (failure ErrorCode.invalid_signed_transaction 400)
  three_attempts (λ k. attach_once r hash inputs refs (encounters k))
