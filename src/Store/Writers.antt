-- ===== src/Store/Writers.antt =====
-- packages/db/src/repository.ts: the writers of an intent's rows, in any order. Each reads the rows
-- by `getIntent` and writes them in one transaction.
pub mod Accounts
pub mod Attaching
pub mod Settling
pub mod Runs
pub mod Versions
use cell_flow.Prelude.{◌≡◌, ◌≢◌, ◌⊎◌, true, false, List, Option, some, none, String, is_some}
use cell_flow.Core.Settlement.{truthy}
use cell_flow.Store.Rows.{TransactionAttemptRecord}
use cell_flow.Store.Apply.{Rows, ApplyInput, Draws, Written, written, apply_snapshot}
use cell_flow.Store.Apply.Announcements.{IsReadFrom}
use cell_flow.Store.Errors.{Stored, stored}
use cell_flow.Store.Reading.{get_intent}
use cell_flow.Store.Attach.{AttachInput}
use cell_flow.Store.Attach.Transaction.{Tables, AttachDraws}
use cell_flow.Store.Attach.Write.{attach_transaction}
use cell_flow.Store.Submit.{MarkInput, MarkDraws, mark_submission_status}
use cell_flow.Store.Promote.{
  PromoteInput, PromoteDraws, CandidateInput, candidate_of, update_candidate_attempt,
  promote_attempt_projection,
}

-- A snapshot is applied by a reconciliation, which an intent without a hash does not have.
pub data Writer (before : Tables) : Tables → Type 0 where
  applies :
      {after : Rows} (d : Draws) (i : ApplyInput) (e : Option String)
      → IsReadFrom before.rows i
      → truthy before.rows.execution.tx_hash ≡ true
      → apply_snapshot d i before.rows ≡ written after e
      → Writer before (record before { rows = after })
  attaches :
      {after : Tables} (d : AttachDraws) (i : AttachInput)
      → i.aggregate ≡ get_intent before.rows
      → attach_transaction d i before ≡ stored after
      → Writer before after
  marks :
      {after : Rows} (d : MarkDraws) (i : MarkInput)
      → i.aggregate ≡ get_intent before.rows
      → mark_submission_status d i before.rows ≡ stored after
      → Writer before (record before { rows = after })
  reports :
      (now : String) (i : CandidateInput)
      → Writer before (record before { rows = update_candidate_attempt now i before.rows })
  promotes :
      {after : Rows} (d : PromoteDraws) (i : PromoteInput) (a : TransactionAttemptRecord)
      → i.aggregate ≡ get_intent before.rows
      → candidate_of i ≡ some a
      → a.tx_hash ≢ ""
      → i.snapshot.confirmation_policy ≡ before.rows.execution.confirmation_policy
      → i.event_kind ≢ "SETTLEMENT_READY"
      → i.event_kind ≢ "SETTLEMENT_REVOKED"
      → promote_attempt_projection d i before.rows ≡ stored after
      → Writer before (record before { rows = after })

-- Any number of writes of all kinds.
pub data WriterRun (start : Tables) : Tables → Type 0 where
  idle : WriterRun start start
  then_writes :
      {before : Tables} {after : Tables}
      → WriterRun start before
      → Writer before after
      → WriterRun start after

-- A report of a suspected conflict reaches only an execution that is not settled.
abbrev pub IsCalm : {before after : Tables} → Writer before after → Type 0
IsCalm {before} (marks d i r h) =
    (i.conflict_type ≡ none) ⊎ (before.rows.execution.settlement_ready_at ≡ none)
IsCalm _ = Unit

-- The run has no report of a conflict on a settled execution.
abbrev pub IsCalmRun : {start after : Tables} → WriterRun start after → Type 0
IsCalmRun idle = Unit
IsCalmRun (then_writes run w) = IsCalmRun run × IsCalm w
