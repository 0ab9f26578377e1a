-- ===== src/Store/Writers/Versions.antt =====
-- Every write of the execution raises its version, so that a stale writer is refused.
use cell_flow.Prelude.{
  ◌≡◌, ◌≢◌, ◌⊎◌, inl, inr, false, arith, refl, ap, ◌∙◌, string_eq, option_eq, not, Option-cases,
}
use cell_flow.Store.Rows.{ExecutionRecord, same_version, IntentAggregate}
use cell_flow.Store.Apply.{Rows, apply_snapshot, changed_concurrently, ApplyInput, Draws}
use cell_flow.Store.Errors.{
  Stored, stored, refused, StoreError, refuse_if, >>=-eq-stored, Stored-cases,
}
use cell_flow.Store.Reading.{get_intent}
use cell_flow.Store.Attach.{AttachInput, check_replacement}
use cell_flow.Store.Attach.Transaction.{Tables, AttachDraws, attach_attempt}
use cell_flow.Store.Attach.Write.{attach_transaction, attached_tables, attached_execution}
use cell_flow.Store.Submit.{
  MarkInput, MarkDraws, mark_submission_status, marked_rows, marked_execution,
}
use cell_flow.Store.Promote.{
  PromoteInput, PromoteDraws, candidate_of, promote_attempt_projection, promoted_rows,
  promoted_execution,
}
use cell_flow.Store.Writers.{
  Writer, WriterRun, applies, attaches, marks, reports, promotes, idle, then_writes,
}
use cell_flow.Prelude.{◌+◌, ◌≤◌}
use cell_flow.Store.Apply.Versions.{apply_snapshot-version, apply_snapshot-stale}
use cell_flow.Store.Promote.{update_candidate_attempt}

attached-version :
    (d : AttachDraws) (i : AttachInput) (before after : Tables)
    → attach_transaction d i before ≡ stored after
    → after.rows.execution.version ≡ before.rows.execution.version + 1
unfolding attach_transaction attached_tables attached_execution
attached-version d i before after h =
    let (checked, c, h1) = >>=-eq-stored (check_replacement i) _ h in
    let (t, _, h2) = >>=-eq-stored (attach_attempt d i before.rows.attempts) _ h1 in
    let (found, _, h3) =
      >>=-eq-stored
        (refuse_if (not (same_version i.aggregate before.rows.execution)) StoreError.changed) _
        h2 in
    ground arith

marked-version :
    (d : MarkDraws) (i : MarkInput) (before after : Rows)
    → mark_submission_status d i before ≡ stored after
    → after.execution.version ≡ before.execution.version + 1
unfolding mark_submission_status marked_rows marked_execution
marked-version d i before after h = ground arith

promoted-version :
    (d : PromoteDraws) (i : PromoteInput) (before after : Rows)
    → promote_attempt_projection d i before ≡ stored after
    → after.execution.version ≡ before.execution.version + 1
unfolding promote_attempt_projection promoted_rows promoted_execution
promoted-version d i before after h = ground arith

-- A write raises the version by one, or leaves the execution alone.
Writer-version :
    {before after : Tables}
    → Writer before after
    → (after.rows.execution ≡ before.rows.execution)
      ⊎ (after.rows.execution.version ≡ before.rows.execution.version + 1)
unfolding update_candidate_attempt
Writer-version {before} (applies {after} d i e r t h) =
    inr (apply_snapshot-version d i before.rows after e h)
Writer-version {before} {after} (attaches d i r h) = inr (attached-version d i before after h)
Writer-version {before} (marks {after} d i r h) = inr (marked-version d i before.rows after h)
Writer-version (reports now i) = inl refl
Writer-version {before} (promotes {after} d i a r c t p k l h) =
    inr (promoted-version d i before.rows after h)

-- Over any run of writers the version of the execution does not fall, and while it is the same the
-- execution is the same.
pub WriterRun-version :
    {start after : Tables}
    → WriterRun start after
    → (start.rows.execution.version ≤ after.rows.execution.version)
      × (after.rows.execution.version ≡ start.rows.execution.version
          → after.rows.execution ≡ start.rows.execution)
WriterRun-version idle = (omega arith, λ q. refl)
WriterRun-version {start} {after} (then_writes {before} r w) =
    let (grows, same) = WriterRun-version r in
    elim (Writer-version w) [
      | inl e ↦ rw e (grows, same)
      | inr raised ↦ (omega (arith, raised, grows), λ q. absurd (omega (arith, raised, grows, q)))
    ]

version_raised :
    {before after : Tables}
    → Writer before after
    → after.rows.execution ≢ before.rows.execution
    → after.rows.execution.version ≡ before.rows.execution.version + 1
version_raised w n = elim (Writer-version w) [ inl e ↦ absurd (n e) | inr raised ↦ raised ]

abbrev pub IsRefused {ℓ} : {V : Type ℓ} → Stored V → Type ℓ
IsRefused m = (e : StoreError) × (m ≡ refused e)

same_version-stale :
    (g : IntentAggregate) (row : ExecutionRecord)
    → row.version ≢ g.execution.version
    → same_version g row ≡ false
unfolding same_version
same_version-stale g row n = ground arith

mark_stale :
    (d : MarkDraws) (i : MarkInput) (rows : Rows)
    → same_version i.aggregate rows.execution ≡ false
    → IsRefused (mark_submission_status d i rows)
unfolding mark_submission_status
mark_stale d i rows n = (StoreError.changed, rw n refl)

promote_stale :
    (d : PromoteDraws) (i : PromoteInput) (rows : Rows)
    → same_version i.aggregate rows.execution ≡ false
    → IsRefused (promote_attempt_projection d i rows)
unfolding promote_attempt_projection
promote_stale d i rows n = elim (Option-cases (candidate_of i)) [
  | inl a ↦ (StoreError.attempt_parent_conflict, rw a refl)
  | inr (a, q) ↦ (StoreError.changed, rw (q, n) refl)
]

attach_stale :
    (d : AttachDraws) (i : AttachInput) (tables : Tables)
    → same_version i.aggregate tables.rows.execution ≡ false
    → IsRefused (attach_transaction d i tables)
unfolding attach_transaction
attach_stale d i tables n = elim (Stored-cases (check_replacement i)) [
  | inl (e, q) ↦ (e, rw q refl)
  | inr (u, q) ↦ elim (Stored-cases (attach_attempt d i tables.rows.attempts)) [
    | inl (e, p) ↦ (e, rw (q, p) refl)
    | inr (t, p) ↦ (StoreError.changed, rw (q, p, n) refl)
  ]
]

-- Once a writer has changed the execution, and whatever writers came after it, the writes that were
-- prepared from the reading before it are refused: an applied snapshot, a report of a submission, a
-- promotion and an attached transaction.
pub overtaken_writes :
    {start next after : Tables}
    → Writer start next
    → next.rows.execution ≢ start.rows.execution
    → WriterRun next after
    → (b : Draws) (h : ApplyInput) (c : MarkDraws) (i : MarkInput) (d : PromoteDraws)
      (j : PromoteInput) (e : AttachDraws) (k : AttachInput)
    → h.aggregate ≡ get_intent start.rows
    → i.aggregate ≡ get_intent start.rows
    → j.aggregate ≡ get_intent start.rows
    → k.aggregate ≡ get_intent start.rows
    → (apply_snapshot b h after.rows ≡ changed_concurrently)
      × IsRefused (mark_submission_status c i after.rows)
      × IsRefused (promote_attempt_projection d j after.rows)
      × IsRefused (attach_transaction e k after)
unfolding get_intent
overtaken_writes {start} {next} {after} w n r b h c i d j e k hr ir jr kr =
    let (grows, _) = WriterRun-version r in
    let raised = version_raised w n in
    let stale : (g : IntentAggregate)
        → g ≡ get_intent start.rows
        → after.rows.execution.version ≢ g.execution.version =
      λ g q e.
        absurd
          (omega (arith, grows, raised, e ∙ ap (λ (x : IntentAggregate). x.execution.version) q)) in
    let row = after.rows.execution in
    (
      apply_snapshot-stale b h after.rows (stale h.aggregate hr),
      mark_stale c i after.rows (same_version-stale i.aggregate row (stale i.aggregate ir)),
      promote_stale d j after.rows (same_version-stale j.aggregate row (stale j.aggregate jr)),
      attach_stale e k after (same_version-stale k.aggregate row (stale k.aggregate kr)),
    )
