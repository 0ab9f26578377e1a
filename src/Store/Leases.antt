-- ===== src/Store/Leases.antt =====
-- packages/db/src/repository.ts: the leases of reconciliation, claimDueExecutions,
-- renewReconcileLease and releaseReconcileLease, on the columns that they read and write. Times are
-- in milliseconds; each call is one transaction at the database's time.
pub mod Unclaimed
pub mod Exclusion
use cell_flow.Prelude.{
  ℕ, zero, suc, ◌+◌, ◌*◌, min, max, Bool, true, false, not, ◌&&◌, ◌||◌, List, [], ◌∷◌, map, Option,
  none, some, String, if◌then◌else◌, ◌==◌, string_eq, option_eq, any, select, leb, ltb, length,
  nat_beq,
}
use cell_flow.Core.Status.{
  SubmissionStatus, ChainStatus, WorkflowStatus, ConflictType, submission_eq, chain_eq, workflow_eq,
  conflict_eq,
}

pub record LeasedRow : Type 0 where
  pub id : String
  pub next_reconcile_at : Option ℕ
  pub submission_status : SubmissionStatus
  pub chain_status : ChainStatus
  pub workflow_status : WorkflowStatus
  pub conflict_type : Option ConflictType
  pub lease_id : Option String
  pub lease_until : Option ℕ

-- `at is not null and at <= now`.
abbrev pub reached : Option ℕ → ℕ → Bool
reached none now = false
reached (some at) now = leb at now

-- `until is null or until < now`.
abbrev pub lapsed : Option ℕ → ℕ → Bool
lapsed none now = true
lapsed (some until) now = ltb until now

-- The `where` of the query.
unfoldable pub is_claimable : ℕ → LeasedRow → Bool
is_claimable now r =
    reached r.next_reconcile_at now
    && not (
        r.workflow_status == WorkflowStatus.conflicted
        || r.workflow_status == WorkflowStatus.expired)
    && not (r.chain_status == ChainStatus.rejected)
    && (not (r.submission_status == SubmissionStatus.node_rejected)
        || r.conflict_type == some ConflictType.input_conflict_suspected)
    && lapsed r.lease_until now

-- Whether a time that is there stands before another.
unfoldable pub due_before : Option ℕ → Option ℕ → Bool
due_before (some a) (some b) = leb a b
due_before _ _ = false

-- `order by next_reconcile_at asc`.
unfoldable pub insert_by_due : LeasedRow → List LeasedRow → List LeasedRow
unfolding due_before
insert_by_due r [] = r ∷ []
insert_by_due r (s ∷ rest) =
    let later = insert_by_due r rest in
    if due_before r.next_reconcile_at s.next_reconcile_at then r ∷ s ∷ rest else s ∷ later

unfoldable pub by_due : List LeasedRow → List LeasedRow
unfolding insert_by_due
by_due [] = []
by_due (r ∷ rest) = insert_by_due r (by_due rest)

abbrev pub take {ℓ} : {A : Type ℓ} → ℕ → List A → List A
take zero xs = []
take (suc n) [] = []
take (suc n) (x ∷ xs) = x ∷ take n xs

-- The rows that the query gives.
unfoldable pub due_rows : ℕ → ℕ → List LeasedRow → List LeasedRow
due_rows limit now table = take (min (max limit 1) 100) (by_due (select (is_claimable now) table))

abbrev pub until_after : ℕ → ℕ → Option ℕ
until_after now seconds = some (now + seconds * 1000)

abbrev pub names : String → List LeasedRow → Bool
names id rows = any (λ r. r.id == id) rows

unfoldable pub leased : String → ℕ → ℕ → List LeasedRow → LeasedRow → LeasedRow
leased lease seconds now chosen r =
    if names r.id chosen
    then record r { lease_id = some lease; lease_until = until_after now seconds }
    else r

-- The table after the claim; the claimed rows are `due_rows`.
unfoldable pub claim_due_executions : ℕ → String → ℕ → ℕ → List LeasedRow → List LeasedRow
unfolding leased
claim_due_executions limit lease seconds now table =
    map (leased lease seconds now (due_rows limit now table)) table

-- Whether an update with the lease finds the row.
abbrev pub holds : String → String → LeasedRow → Bool
holds id lease r = r.id == id && r.lease_id == some lease

renewed : String → String → ℕ → ℕ → LeasedRow → LeasedRow
renewed id lease seconds now r =
    if holds id lease r
    then record r { lease_until = until_after now (min (max seconds 15) 3600) }
    else r

unfoldable pub renew_reconcile_lease :
    String → String → ℕ → ℕ → List LeasedRow → Bool × List LeasedRow
unfolding renewed
renew_reconcile_lease id lease seconds now table =
    (nat_beq (length (select (holds id lease) table)) 1, map (renewed id lease seconds now) table)

released : String → String → LeasedRow → LeasedRow
released id lease r =
    if holds id lease r then record r { lease_id = none; lease_until = none } else r

unfoldable pub release_reconcile_lease : String → String → List LeasedRow → List LeasedRow
unfolding released
release_reconcile_lease id lease table = map (released id lease) table
