-- ===== src/Examples/Contest.antt =====
-- packages/db at work: a promoted candidate, and writes that another writer has overtaken.
use cell_flow.Examples.Chain.{confirmed_snapshot}
use cell_flow.Store.Writers.Versions.{IsRefused, overtaken_writes}
use cell_flow.Store.Promote.Winner.{HasLost, promotion_decides}
use cell_flow.Store.Promote.{
  PromoteInput, PromoteDraws, promote_attempt_projection, candidate_of, promoted_rows,
}
use cell_flow.Store.Apply.{ApplyInput, apply_snapshot, changed_concurrently, Rows}
use cell_flow.Store.Attach.{AttachInput}
use cell_flow.Store.Attach.Write.{attach_transaction}
use cell_flow.Prelude.{◌≡◌, refl, [], some, none, All, ◌≢◌, arith, ap, ◌∷◌, option_eq, string_eq}
use cell_flow.Core.Status.{AttemptDisposition}
use cell_flow.Store.Rows.{same_version, ExecutionRecord, disposition_for_snapshot}
use cell_flow.Store.Errors.{stored}
use cell_flow.Store.Reading.{get_intent}
use cell_flow.Store.Submit.{MarkInput, mark_submission_status}
use cell_flow.Store.Writers.{applies, idle}
use cell_flow.Examples.Rows.{before, after, input, draws, input-IsReadFrom, confirmed_write}
use cell_flow.Examples.Attempts.{
  settled, at_first, report, reported, replacement, replacing, sent, first_attempt, second_attempt,
}

abbrev pub contested : Rows
contested = record sent.rows { attempts = first_attempt ∷ second_attempt ∷ [] }

abbrev promotion : PromoteInput
promotion = record {
  aggregate = get_intent contested;
  attempt_id = "b";
  snapshot = confirmed_snapshot;
  event_kind = "COMPETING_ATTEMPT_CONFIRMED";
  reason = "won";
  raw_observation = none;
  occurred_at = "noon";
  next_reconcile_at = none;
}

abbrev pub promoting : PromoteDraws
promoting = record { now = "noon"; at = "noon"; event_id = "won"; settlement_event_id = "settled" }

second_found : candidate_of promotion ≡ some second_attempt
unfolding candidate_of get_intent
second_found = refl

promotion_run :
    promote_attempt_projection promoting promotion contested
    ≡ stored (promoted_rows promoting promotion second_attempt contested)
unfolding promote_attempt_projection candidate_of get_intent same_version
promotion_run = refl

confirmed_disposition : disposition_for_snapshot confirmed_snapshot ≡ AttemptDisposition.confirmed
unfolding disposition_for_snapshot
confirmed_disposition = refl

promotion_decides_example :
    ((promoted_rows promoting promotion second_attempt contested).intent.winning_attempt_id
      ≡ some "b")
    × ((promoted_rows promoting promotion second_attempt contested).intent.active_attempt_id
        ≡ some "b")
    × All
        (HasLost promotion.aggregate.intent.id "b")
        (promoted_rows promoting promotion second_attempt contested).attempts
promotion_decides_example =
    promotion_decides promoting promotion second_attempt contested
      (promoted_rows promoting promotion second_attempt contested) second_found
      confirmed_disposition promotion_run

-- The reading before the confirmation is stale after it.
version_moved : settled.rows.execution ≢ at_first.rows.execution
version_moved e = absurd (omega (arith, ap (λ (x : ExecutionRecord). x.version) e))

abbrev stale_report : MarkInput
stale_report = record report { aggregate = get_intent before }

abbrev stale_promotion : PromoteInput
stale_promotion = record promotion { aggregate = get_intent before }

abbrev stale_replacement : AttachInput
stale_replacement = record replacement { aggregate = get_intent before }

abbrev stale_input : ApplyInput
stale_input = record input { aggregate = get_intent before }

overtaken_writes_example :
    (apply_snapshot draws stale_input after ≡ changed_concurrently)
    × IsRefused (mark_submission_status reported stale_report after)
    × IsRefused (promote_attempt_projection promoting stale_promotion after)
    × IsRefused (attach_transaction replacing stale_replacement settled)
overtaken_writes_example =
    overtaken_writes {start = at_first} {next = settled} {after = settled}
      (applies draws input (some "first") input-IsReadFrom refl confirmed_write) version_moved idle
      draws stale_input reported stale_report promoting stale_promotion replacing stale_replacement
      refl refl refl refl
