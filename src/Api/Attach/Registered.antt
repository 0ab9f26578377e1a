-- ===== src/Api/Attach/Registered.antt =====
-- What an accepted registration is.
use cell_flow.Prelude.{
  ℕ, ◌≡◌, ◌<◌, true, false, Option, some, String, arith, refl, sym, ap, ◌∙◌, Bool-cases, inl, inr,
  ◌==◌, option_eq, string_eq, not, List, option_beq_iff,
}
use cell_flow.Core.Status.{SubmissionStatus}
use cell_flow.Core.Types.{ExecutionSnapshot, OutPointRef, InputRef}
use cell_flow.Core.Errors.{ok, Result-cases, failure, ErrorCode}
use cell_flow.Core.Settlement.{truthy}
use cell_flow.Core.Submission.{update_submission}
use cell_flow.Core.Submission.Graph.{update_submission_sound}
use cell_flow.Core.Observation.{initial_snapshot}
use cell_flow.Core.Validation.{normalize_tx_hash, normalize_out_point_refs, normalize_input_refs}
use cell_flow.Store.Rows.{ExecutionRecord, IntentAggregate, snapshot_from_execution}
use cell_flow.Store.Reading.{get_intent}
use cell_flow.Store.Attach.{AttachInput, creating, same_hash, is_finalized}
use cell_flow.Store.Attach.Guards.{attach_effects, attach_transaction-IsSafeReplacement}
use cell_flow.Store.Attach.Transaction.{Tables, AttachDraws}
use cell_flow.Store.Attach.Write.{attach_transaction, attached_execution}
use cell_flow.Store.Errors.{Stored, stored, refused, StoreError}
use cell_flow.Store.Writers.{WriterRun}
use cell_flow.Store.Writers.Versions.{WriterRun-version}
use cell_flow.Api.Retry.{
  returned, from_result, throw_when, three_attempts, Call-cases, >>=-eq-returned,
  from_result-returned,
}
use cell_flow.Api.Retry.Attempts.{three_attempts_one}
use cell_flow.Api.Attach.{
  AttachRequest, AttachEncounter, replacing_hash, base_snapshot, attach_input, caught, check_stored,
  attach_once, attach, optional, disagree,
}

-- The snapshot of the execution that is written.
created_snapshot :
    (d : AttachDraws) (i : AttachInput) (row : ExecutionRecord)
    → creating i ≡ true
    → snapshot_from_execution (attached_execution d i row)
      ≡ record (initial_snapshot row.confirmation_policy) {
        submission_status = i.submission_status;
      }
unfolding attached_execution snapshot_from_execution initial_snapshot
created_snapshot d i row c = rw c refl

kept_snapshot :
    (d : AttachDraws) (i : AttachInput) (row : ExecutionRecord)
    → creating i ≡ false
    → snapshot_from_execution (attached_execution d i row)
      ≡ record (snapshot_from_execution row) { submission_status = i.submission_status }
unfolding attached_execution snapshot_from_execution
kept_snapshot d i row c = rw c refl

-- An execution that has no transaction yet is as it was created.
abbrev pub IsFresh : ExecutionRecord → Type 0
IsFresh e =
    truthy e.tx_hash ≡ false → snapshot_from_execution e ≡ initial_snapshot e.confirmation_policy

base_created :
    (g : IntentAggregate) (hash : String)
    → IsFresh g.execution
    → not (g.execution.tx_hash == some hash) ≡ true
    → base_snapshot g hash ≡ initial_snapshot g.execution.confirmation_policy
unfolding base_snapshot replacing_hash
base_created g hash fresh c = elim (Bool-cases (truthy g.execution.tx_hash)) [
  | inl t ↦ rw (t, c) refl
  | inr n ↦ rw n (fresh n)
]

base_kept :
    (g : IntentAggregate) (hash : String)
    → not (g.execution.tx_hash == some hash) ≡ false
    → base_snapshot g hash ≡ snapshot_from_execution g.execution
unfolding base_snapshot replacing_hash
base_kept g hash c = ground arith

-- The write gives the base snapshot with the new submission status.
attached_base :
    (d : AttachDraws) (i : AttachInput)
    → IsFresh i.aggregate.execution
    → snapshot_from_execution (attached_execution d i i.aggregate.execution)
      ≡ record (base_snapshot i.aggregate i.tx_hash) { submission_status = i.submission_status }
unfolding creating same_hash
attached_base d i fresh = elim (Bool-cases (creating i)) [
  | inl c ↦
      created_snapshot d i i.aggregate.execution c
      ∙ ap (λ (s : ExecutionSnapshot). record s { submission_status = i.submission_status })
          (sym (base_created i.aggregate i.tx_hash fresh c))
  | inr c ↦
      kept_snapshot d i i.aggregate.execution c
      ∙ ap (λ (s : ExecutionSnapshot). record s { submission_status = i.submission_status })
          (sym (base_kept i.aggregate i.tx_hash c))
]

pub record IsRegistered (status : SubmissionStatus) (hash : String) (e : AttachEncounter)
    (after : Tables) : Type 0 where
  pub hashed : after.rows.execution.tx_hash ≡ some hash
  pub moved :
      update_submission (base_snapshot (get_intent e.seen.rows) hash) status
      ≡ ok (snapshot_from_execution after.rows.execution)
  pub safe :
      replacing_hash (get_intent e.seen.rows) hash ≡ true
      → is_finalized e.seen.rows.execution ≡ false

attached_hash :
    (d : AttachDraws) (i : AttachInput) (row : ExecutionRecord)
    → (attached_execution d i row).tx_hash ≡ some i.tx_hash
unfolding attached_execution
attached_hash d i row = ground arith

replaced_safe :
    (d : AttachDraws) (i : AttachInput) (before after : Tables)
    → attach_transaction d i before ≡ stored after
    → replacing_hash i.aggregate i.tx_hash ≡ true
    → is_finalized i.aggregate.execution ≡ false
unfolding replacing_hash is_finalized
replaced_safe d i before after h r =
    let safe =
      attach_transaction-IsSafeReplacement d i before after h
        (λ q. ground (
          arith,
          option_beq_iff string_eq.beq string_eq.beq_iff i.aggregate.execution.tx_hash
              (some i.tx_hash),
        ))
        (ground arith) in
    ground (arith, safe.not_committed, safe.not_confirmed)

-- A write that went through, from a reading before any writers that served in between.
registered :
    (d : AttachDraws) (i : AttachInput) (seen met after : Tables) (t : ExecutionSnapshot)
    → WriterRun seen met
    → IsFresh seen.rows.execution
    → i.aggregate ≡ get_intent seen.rows
    → update_submission (base_snapshot i.aggregate i.tx_hash) i.submission_status ≡ ok t
    → attach_transaction d i met ≡ stored after
    → ok (snapshot_from_execution after.rows.execution) ≡ ok t
unfolding get_intent
registered d i seen met after t served fresh read q h =
    let (version, written, _) = attach_effects d i met after h in
    let here = ap (λ (x : IntentAggregate). x.execution) read in
    let same =
      (WriterRun-version served).1
        (version ∙ ap (λ (x : IntentAggregate). x.execution.version) read)
      ∙ sym here in
    let (_, _, frame) =
      update_submission_sound (base_snapshot i.aggregate i.tx_hash) t i.submission_status q in
    let fresh_here : IsFresh i.aggregate.execution = rw here fresh in
    ap ok (
      ap snapshot_from_execution
        (written ∙ ap (λ (x : ExecutionRecord). attached_execution d i x) same)
      ∙ attached_base d i fresh_here
      ∙ sym frame)

caught-returned {ℓ} : {V : Type ℓ} (m : Stored V) {v : V} → caught m ≡ returned v → m ≡ stored v
unfolding caught
caught-returned (stored a) h = ground arith
caught-returned (refused StoreError.changed) h = cc
caught-returned (refused StoreError.tx_hash_conflict) h = cc
caught-returned (refused StoreError.attempt_input_conflict) h = cc
caught-returned (refused StoreError.attempt_signed_payload_conflict) h = cc
caught-returned (refused StoreError.attempt_parent_conflict) h = cc
caught-returned (refused StoreError.attempt_kind_invalid) h = cc
caught-returned (refused StoreError.unsafe_attempt_replacement) h = cc
caught-returned (refused StoreError.rbf_inputs_do_not_overlap) h = cc

attach_once-IsRegistered :
    (r : AttachRequest) (hash : String) (inputs : Option (List OutPointRef))
    (refs : Option (List InputRef)) (e : AttachEncounter) (after : Tables)
    → WriterRun e.seen e.met
    → IsFresh e.seen.rows.execution
    → attach_once r hash inputs refs e ≡ returned after
    → IsRegistered r.submission_status hash e after
unfolding attach_once attach_input caught get_intent
attach_once-IsRegistered r hash inputs refs e after served fresh h =
    let g = get_intent e.seen.rows in
    let u = update_submission (base_snapshot g hash) r.submission_status in
    elim (Call-cases (check_stored e.draws g.execution hash inputs refs)) [
      | inl (x, c) ↦ cc (rw c at h)
      | inr (done, c) ↦ elim (Result-cases u) [
        | inl (x, q) ↦ cc (rw (c, q) at h)
        | inr (t, q) ↦
            let i = attach_input e.draws r g hash inputs refs t in
            let p : attach_transaction e.draws i e.met ≡ stored after =
              caught-returned (attach_transaction e.draws i e.met) (rw (c, q) at h) in
            let (_, written, _) = attach_effects e.draws i e.met after p in
            record {
              hashed =
                  ap (λ (x : ExecutionRecord). x.tx_hash) written
                  ∙ attached_hash e.draws i e.met.rows.execution;
              moved = q ∙ sym (registered e.draws i e.seen e.met after t served fresh refl q p);
              safe = λ k. replaced_safe e.draws i e.met after p k;
            }
      ]
    ]

attach_parts :
    (r : AttachRequest) (es : ℕ → AttachEncounter) {after : Tables}
    → attach r es ≡ returned after
    → (hash : String) × (normalize_tx_hash r.tx_hash ≡ ok hash)
      × (inputs : Option (List OutPointRef)) × (refs : Option (List InputRef)) × (three_attempts
            (λ k. attach_once r hash inputs refs (es k))
          ≡ returned after)
unfolding attach
attach_parts r es h =
    let (hash, n, h1) = >>=-eq-returned (from_result (normalize_tx_hash r.tx_hash)) _ h in
    let (inputs, _, h2) =
      >>=-eq-returned (from_result (optional normalize_out_point_refs r.input_out_points)) _ h1 in
    let (refs, _, h3) =
      >>=-eq-returned (from_result (optional normalize_input_refs r.input_refs)) _ h2 in
    let (done, _, h4) =
      >>=-eq-returned
        (throw_when (disagree inputs refs) (failure ErrorCode.invalid_signed_transaction 400)) _
        h3 in
    (hash, from_result-returned (normalize_tx_hash r.tx_hash) n, inputs, refs, h4)

-- A registration that is accepted has a hash in normal form, which one of three attempts has stored:
-- the stored snapshot is the state machine's update of the snapshot that this attempt read, or of the
-- initial one where another transaction is replaced, whatever other writers did between its
-- reading and its write; and a transaction that is replaced was neither committed nor confirmed. An
-- execution that is read without a transaction must have the initial snapshot.
pub attach-IsRegistered :
    (r : AttachRequest) (es : ℕ → AttachEncounter) (after : Tables)
    → ((k : ℕ) → WriterRun (es k).seen (es k).met)
    → ((k : ℕ) → IsFresh (es k).seen.rows.execution)
    → attach r es ≡ returned after
    → (hash : String) × (normalize_tx_hash r.tx_hash ≡ ok hash)
      × (k : ℕ) × (k < 3)
      × IsRegistered r.submission_status hash (es k) after
attach-IsRegistered r es after served fresh h =
    let (hash, n, inputs, refs, tried) = attach_parts r es h in
    let (k, lt, once) = three_attempts_one (λ k. attach_once r hash inputs refs (es k)) tried in
    (
      hash,
      n,
      k,
      lt,
      attach_once-IsRegistered r hash inputs refs (es k) after (served k) (fresh k) once,
    )
