-- ===== src/Api/Mark/Reports.antt =====
-- What an accepted report is.
use cell_flow.Prelude.{
  ℕ, ◌≡◌, ◌<◌, true, false, Option, some, none, arith, refl, sym, ap, ◌∙◌, Bool-cases, inl, inr,
  option_eq, ◌⊎◌, is_some, eq_iff,
}
use cell_flow.Core.Status.{SubmissionStatus, ConflictType, submission_eq, conflict_eq}
use cell_flow.Core.Errors.{ok, Result-cases}
use cell_flow.Core.Settlement.{truthy}
use cell_flow.Core.Submission.{update_submission}
use cell_flow.Core.Submission.Graph.{update_submission_sound}
use cell_flow.Store.Rows.{ExecutionRecord, IntentAggregate, snapshot_from_execution, same_version}
use cell_flow.Store.Apply.{Rows}
use cell_flow.Store.Reading.{get_intent}
use cell_flow.Store.Errors.{stored, Stored-cases}
use cell_flow.Store.Submit.{
  MarkInput, MarkDraws, mark_submission_status, marked_rows, marked_execution,
}
use cell_flow.Store.Writers.{WriterRun}
use cell_flow.Store.Writers.Versions.{WriterRun-version}
use cell_flow.Api.Retry.{returned, three_attempts, is_concurrent, Call-cases}
use cell_flow.Api.Retry.Attempts.{three_attempts_one, three_attempts_calm}
use cell_flow.Api.Mark.{
  SubmissionFailureEvidence, rejection_given, conflict_given, check_evidence, mark_input, Encounter,
  mark_once, mark_submission,
}

-- What the evidence of an accepted report is.
pub record IsSupported (status : SubmissionStatus) (f : Option SubmissionFailureEvidence)
    : Type 0 where
  pub rejection_proved : status ≡ SubmissionStatus.node_rejected → rejection_given f ≡ true
  pub conflict_suspected :
      is_some (conflict_given f) ≡ true
      → (conflict_given f ≡ some ConflictType.input_conflict_suspected)
        × (status ≡ SubmissionStatus.node_rejected)
  pub success_bare :
      (status ≡ SubmissionStatus.broadcasting) ⊎ (status ≡ SubmissionStatus.submitted) → f ≡ none

check_evidence-IsSupported :
    (status : SubmissionStatus) (f : Option SubmissionFailureEvidence)
    → check_evidence status f ≡ returned tt
    → IsSupported status f
unfolding check_evidence
check_evidence-IsSupported status none h = record {
  rejection_proved = λ q. ground arith;
  conflict_suspected = λ q. cc;
  success_bare = λ q. refl;
}
check_evidence-IsSupported status (some f) h = record {
  rejection_proved = λ q. ground arith;
  conflict_suspected = λ q. (ground arith, ground arith);
  success_bare = λ q. ground arith;
}

-- The writers between the reading and the write of one attempt are those of the repository.
abbrev pub IsServed : Encounter → Type 0
IsServed e = WriterRun e.seen e.met

-- The write of a report is the state machine's update of the snapshot that was read.
marked_snapshot_of :
    (d : MarkDraws) (i : MarkInput) (rows : Rows)
    → snapshot_from_execution (marked_rows d i rows).execution
      ≡ record (snapshot_from_execution rows.execution) { submission_status = i.status }
unfolding marked_rows marked_execution snapshot_from_execution
marked_snapshot_of d i rows = refl

mark_inversion :
    (d : MarkDraws) (i : MarkInput) (rows after : Rows)
    → mark_submission_status d i rows ≡ stored after
    → (rows.execution.version ≡ i.aggregate.execution.version) × (after ≡ marked_rows d i rows)
unfolding mark_submission_status same_version
mark_inversion d i rows after h = (ground arith, ground arith)

-- What one attempt has done if it returns.
pub record IsMarked (status : SubmissionStatus) (e : Encounter) (after : Rows) : Type 0 where
  pub hashed : truthy e.seen.rows.execution.tx_hash ≡ true
  pub moved :
      update_submission (snapshot_from_execution e.seen.rows.execution) status
      ≡ ok (snapshot_from_execution after.execution)

mark_once-IsMarked :
    (status : SubmissionStatus) (f : Option SubmissionFailureEvidence) (e : Encounter)
    (after : Rows)
    → IsServed e
    → mark_once status f e ≡ returned after
    → IsMarked status e after
unfolding mark_once get_intent mark_input
mark_once-IsMarked status f e after served h =
    let s = snapshot_from_execution e.seen.rows.execution in
    elim (Result-cases (update_submission s status)) [
      | inl (x, q) ↦ ground arith
      | inr (t, q) ↦
          let i = mark_input (get_intent e.seen.rows) status f t in
          elim (Stored-cases (mark_submission_status e.draws i e.met.rows)) [
            | inl (x, p) ↦ ground arith
            | inr (rows, p) ↦
                let (version, written) = mark_inversion e.draws i e.met.rows rows p in
                let same = (WriterRun-version served).1 version in
                let (_, _, frame) = update_submission_sound s t status q in
                let made : after ≡ rows = ground arith in
                record {
                  hashed = ground arith;
                  moved =
                      q
                      ∙ ap ok (
                          frame
                          ∙ sym (
                              ap (λ (x : Rows). snapshot_from_execution x.execution)
                                (made ∙ written)
                              ∙ marked_snapshot_of e.draws i e.met.rows
                              ∙ ap
                                  (λ (x : ExecutionRecord). record (snapshot_from_execution x) {
                                    submission_status = status;
                                  })
                                  same));
                }
          ]
    ]

mark_submission_parts :
    (status : SubmissionStatus) (f : Option SubmissionFailureEvidence) (es : ℕ → Encounter)
    {after : Rows}
    → mark_submission status f es ≡ returned after
    → (check_evidence status f ≡ returned tt)
      × (three_attempts (λ k. mark_once status f (es k)) ≡ returned after)
unfolding mark_submission
mark_submission_parts status f es h = elim (Call-cases (check_evidence status f)) [
  | inl (x, q) ↦ cc (rw q at h)
  | inr (u, q) ↦ (q, rw q at h)
]

-- A report that is accepted is supported by its evidence: NODE_REJECTED by an RPC rejection, a
-- conflict only as a suspicion and with a rejection, and a success by no failure. One of three
-- attempts has written it, for a transaction with a hash, and the snapshot that is then stored is the
-- state machine's update of the snapshot that this attempt read, whatever other writers did
-- between its reading and its write.
pub mark_submission-IsMarked :
    (status : SubmissionStatus) (f : Option SubmissionFailureEvidence) (es : ℕ → Encounter)
    (after : Rows)
    → ((k : ℕ) → IsServed (es k))
    → mark_submission status f es ≡ returned after
    → IsSupported status f × ((k : ℕ) × (k < 3) × IsMarked status (es k) after)
mark_submission-IsMarked status f es after served h =
    let (checked, tried) = mark_submission_parts status f es h in
    let (k, lt, once) = three_attempts_one (λ k. mark_once status f (es k)) tried in
    (
      check_evidence-IsSupported status f checked,
      (k, lt, mark_once-IsMarked status f (es k) after (served k) once),
    )

same_version_refl :
    (g : IntentAggregate)
    → g.execution.project_id ≡ g.intent.project_id
    → same_version g g.execution ≡ true
unfolding same_version
same_version_refl g h =
    ground (
      arith,
      eq_iff g.execution.id g.execution.id,
      eq_iff g.execution.project_id g.intent.project_id,
    )

mark_once_calm :
    (status : SubmissionStatus) (f : Option SubmissionFailureEvidence) (e : Encounter)
    → e.met ≡ e.seen
    → e.seen.rows.execution.project_id ≡ e.seen.rows.intent.project_id
    → is_concurrent (mark_once status f e) ≡ false
unfolding mark_once mark_submission_status mark_input get_intent
mark_once_calm status f e quiet project =
    let found = same_version_refl (get_intent e.seen.rows) project in
    elim (Bool-cases (truthy e.seen.rows.execution.tx_hash)) [
      | inr bare ↦ rw bare refl
      | inl hash ↦
          elim (Result-cases
            (update_submission (snapshot_from_execution e.seen.rows.execution) status)) [
              | inl (x, q) ↦ rw (hash, q) refl
              | inr (t, q) ↦ rw (hash, q, quiet, found) refl
            ]
    ]

check_evidence-calm :
    (status : SubmissionStatus) (f : Option SubmissionFailureEvidence)
    → is_concurrent (check_evidence status f) ≡ false
unfolding check_evidence
check_evidence-calm status none = ground arith
check_evidence-calm status (some f) = ground arith

-- A report that meets no other writer in one of its three attempts does not end in a concurrency
-- error.
pub mark_submission_calm :
    (status : SubmissionStatus) (f : Option SubmissionFailureEvidence) (es : ℕ → Encounter) (k : ℕ)
    → k < 3
    → (es k).met ≡ (es k).seen
    → (es k).seen.rows.execution.project_id ≡ (es k).seen.rows.intent.project_id
    → is_concurrent (mark_submission status f es) ≡ false
unfolding mark_submission
mark_submission_calm status f es k lt quiet project =
    let calm =
      three_attempts_calm (λ k. mark_once status f (es k)) k lt
        (mark_once_calm status f (es k) quiet project) in
    elim (Call-cases (check_evidence status f)) [
      | inl (x, q) ↦ rw q (rw q at (check_evidence-calm status f))
      | inr (u, q) ↦ rw q calm
    ]
