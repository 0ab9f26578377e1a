-- ===== src/Store/Writers/Runs.antt =====
-- The settlement over any run of writers.
use cell_flow.Prelude.{◌≡◌, true, Option, String, ap, ◌∙◌, string_eq, option_eq}
use cell_flow.Core.Settlement.{truthy}
use cell_flow.Store.Apply.{Rows, apply_snapshot, ApplyInput, Draws, written}
use cell_flow.Store.Apply.Announcements.{
  IsReadFrom, apply_snapshot-IsAnnounced, apply_snapshot-tx_hash,
}
use cell_flow.Store.Reading.{get_intent}
use cell_flow.Store.Attach.Transaction.{Tables}
use cell_flow.Store.Promote.{update_candidate_attempt}
use cell_flow.Store.Writers.{
  Writer, WriterRun, IsCalm, IsCalmRun, applies, attaches, marks, reports, promotes, idle,
  then_writes,
}
use cell_flow.Store.Writers.Accounts.{IsAccounted}
use cell_flow.Store.Writers.Attaching.{attach_transaction-IsAccounted}
use cell_flow.Store.Writers.Settling.{
  mark_submission_status-IsAccounted, promote_attempt_projection-IsAccounted,
}

apply_snapshot-IsAccounted :
    (d : Draws) (i : ApplyInput) (before after : Rows) (e : Option String)
    → IsAccounted before
    → IsReadFrom before i
    → truthy before.execution.tx_hash ≡ true
    → apply_snapshot d i before ≡ written after e
    → IsAccounted after
apply_snapshot-IsAccounted d i before after e v r t h = record {
  announced = apply_snapshot-IsAnnounced d i before after e v.announced r h;
  hashed = λ q. ap truthy (apply_snapshot-tx_hash d i before after e h) ∙ t;
}

-- One write keeps the settlement accounted for.
Writer-IsAccounted :
    {before after : Tables} (w : Writer before after)
    → IsCalm w
    → IsAccounted before.rows
    → IsAccounted after.rows
unfolding get_intent update_candidate_attempt
Writer-IsAccounted {before} (applies {after} d i e r t h) calm v =
    apply_snapshot-IsAccounted d i before.rows after e v r t h
Writer-IsAccounted {before} {after} (attaches d i r h) calm v =
    attach_transaction-IsAccounted d i before after v (ap (λ g. g.execution) r) h
Writer-IsAccounted {before} (marks {after} d i r h) calm v =
    mark_submission_status-IsAccounted d i before.rows after v (ap (λ g. g.execution) r) calm h
Writer-IsAccounted {before} (reports now i) calm v = record {
  announced = record { told = v.announced.told; earned = v.announced.earned };
  hashed = v.hashed;
}
Writer-IsAccounted {before} (promotes {after} d i a r c t p k l h) calm v =
    promote_attempt_projection-IsAccounted d i a before.rows after v (ap (λ g. g.execution) r)
      (ap (λ g. g.intent) r) c t p k l h

-- Whatever the writers of an intent do, in any order and number, each reading the rows and writing
-- them in one transaction, while no report of a suspected conflict reaches a settled execution: the
-- last settlement event of the ledger says SETTLEMENT_READY exactly while the execution is marked as
-- settled, a marked execution is ready for settlement by its own columns, and only a transaction
-- with a hash is marked, if this held at the start. An applied snapshot belongs to a transaction with
-- a hash, and it and a promoted one have the policy of the execution. The candidate of a promotion
-- has a hash, and the event that a reconciliation or a promotion brings is no settlement event.
pub WriterRun-IsAccounted :
    {start after : Tables} (run : WriterRun start after)
    → IsCalmRun run
    → IsAccounted start.rows
    → IsAccounted after.rows
WriterRun-IsAccounted idle calm v = v
WriterRun-IsAccounted (then_writes run w) (calm, c) v =
    Writer-IsAccounted w c (WriterRun-IsAccounted run calm v)
