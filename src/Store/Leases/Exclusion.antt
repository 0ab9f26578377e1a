-- ===== src/Store/Leases/Exclusion.antt =====
-- A lease keeps other workers away until it runs out.
use cell_flow.Prelude.{
  ℕ, ◌≡◌, ◌≢◌, ◌≤◌, false, some, String, arith, refl, eq_iff, string_eq, option_eq, List, [], ◌∷◌,
  ◌+◌, ◌*◌, sym, ap, ◌∙◌, Bool-cases, inl, inr, map, true,
}
use cell_flow.Store.Leases.{
  LeasedRow, due_rows, names, claim_due_executions, renew_reconcile_lease, release_reconcile_lease,
  leased, holds, renewed, released,
}
use cell_flow.Store.Leases.Unclaimed.{IsLeased, due_rows-Lacks}

-- What other workers do, at times up to a bound.
pub data OthersRun (worker : String) (bound : ℕ) (start : List LeasedRow)
    : List LeasedRow → Type 0 where
  nothing : OthersRun worker bound start start
  claims :
      {before : List LeasedRow} (limit : ℕ) (lease : String) (seconds now : ℕ)
      → OthersRun worker bound start before
      → now ≤ bound
      → OthersRun worker bound start (claim_due_executions limit lease seconds now before)
  renews :
      {before : List LeasedRow} (id lease : String) (seconds now : ℕ)
      → OthersRun worker bound start before
      → lease ≢ worker
      → OthersRun worker bound start (renew_reconcile_lease id lease seconds now before).1
  releases :
      {before : List LeasedRow} (id lease : String)
      → OthersRun worker bound start before
      → lease ≢ worker
      → OthersRun worker bound start (release_reconcile_lease id lease before)

-- A map that keeps a row's identifier, and leaves a held row alone, keeps the lease.
map-IsLeased :
    (id worker : String) (until : ℕ) (f : LeasedRow → LeasedRow) (table : List LeasedRow)
    → ((r : LeasedRow) → (f r).id ≡ r.id)
    → ((r : LeasedRow) → r.id ≡ id → r.lease_id ≡ some worker → f r ≡ r)
    → IsLeased id worker until table
    → IsLeased id worker until (map f table)
map-IsLeased id worker until f [] same kept h = tt
map-IsLeased id worker until f (r ∷ table) same kept h = (
  λ q.
      let here = sym (same r) ∙ q in
      let (lease, time) = h.0 here in
      let e = kept r here lease in
      (
        ap (λ (x : LeasedRow). x.lease_id) e ∙ lease,
        ap (λ (x : LeasedRow). x.lease_until) e ∙ time,
      ),
  map-IsLeased id worker until f table same kept h.1,
)

leased_id :
    (lease : String) (seconds now : ℕ) (chosen : List LeasedRow) (r : LeasedRow)
    → (leased lease seconds now chosen r).id ≡ r.id
unfolding leased
leased_id lease seconds now chosen r = ground arith

leased_kept :
    (lease : String) (seconds now : ℕ) (chosen : List LeasedRow) (r : LeasedRow)
    → names r.id chosen ≡ false
    → leased lease seconds now chosen r ≡ r
unfolding leased
leased_kept lease seconds now chosen r h = rw h refl

foreign_holds :
    (id lease worker : String) (r : LeasedRow)
    → lease ≢ worker
    → r.lease_id ≡ some worker
    → holds id lease r ≡ false
foreign_holds id lease worker r n h = elim (Bool-cases (holds id lease r)) [
  | inr f ↦ f
  | inl t ↦ ground (arith, eq_iff worker lease, n)
]

renewed_id :
    (id lease : String) (seconds now : ℕ) (r : LeasedRow)
    → (renewed id lease seconds now r).id ≡ r.id
unfolding renewed
renewed_id id lease seconds now r = ground arith

renewed_kept :
    (id lease : String) (seconds now : ℕ) (r : LeasedRow)
    → holds id lease r ≡ false
    → renewed id lease seconds now r ≡ r
unfolding renewed
renewed_kept id lease seconds now r h = rw h refl

released_id : (id lease : String) (r : LeasedRow) → (released id lease r).id ≡ r.id
unfolding released
released_id id lease r = ground arith

released_kept :
    (id lease : String) (r : LeasedRow) → holds id lease r ≡ false → released id lease r ≡ r
unfolding released
released_kept id lease r h = rw h refl

-- Other workers do not touch a lease that is in force.
OthersRun-IsLeased :
    (id worker : String) (until : ℕ) {start after : List LeasedRow}
    → OthersRun worker until start after
    → IsLeased id worker until start
    → IsLeased id worker until after
unfolding claim_due_executions renew_reconcile_lease release_reconcile_lease
OthersRun-IsLeased id worker until nothing h = h
OthersRun-IsLeased id worker until (claims {before} limit lease seconds now run le) h =
    let held = OthersRun-IsLeased id worker until run h in
    let chosen = due_rows limit now before in
    map-IsLeased id worker until (leased lease seconds now chosen) before
      (leased_id lease seconds now chosen)
      (λ r q m. leased_kept lease seconds now chosen r (
        ap (λ (x : String). names x chosen) q
        ∙ due_rows-Lacks id worker until limit now before held le))
      held
OthersRun-IsLeased id worker until (renews {before} other lease seconds now run n) h =
    map-IsLeased id worker until (renewed other lease seconds now) before
      (renewed_id other lease seconds now)
      (λ r q m. renewed_kept other lease seconds now r (foreign_holds other lease worker r n m))
      (OthersRun-IsLeased id worker until run h)
OthersRun-IsLeased id worker until (releases {before} other lease run n) h =
    map-IsLeased id worker until (released other lease) before (released_id other lease)
      (λ r q m. released_kept other lease r (foreign_holds other lease worker r n m))
      (OthersRun-IsLeased id worker until run h)

-- A claim leases the rows that it gives.
claimed-IsLeased :
    (id lease : String) (limit seconds now : ℕ) (chosen table : List LeasedRow)
    → names id chosen ≡ true
    → IsLeased id lease (now + seconds * 1000) (map (leased lease seconds now chosen) table)
unfolding leased
claimed-IsLeased id lease limit seconds now chosen [] h = tt
claimed-IsLeased id lease limit seconds now chosen (r ∷ table) h = (
  λ q.
      let here = sym (leased_id lease seconds now chosen r) ∙ q in
      rw (ap (λ (x : String). names x chosen) here ∙ h) (refl, refl),
  claimed-IsLeased id lease limit seconds now chosen table h,
)

-- An execution that a worker has claimed is not handed out again while the lease is in force,
-- whatever other workers claim, renew and release until then.
pub claim_excludes :
    (id worker : String) (limit seconds now : ℕ) (table after : List LeasedRow)
    → names id (due_rows limit now table) ≡ true
    → OthersRun worker
        (now + seconds * 1000)
        (claim_due_executions limit worker seconds now table)
        after
    → (other_limit later : ℕ) → later ≤ now + seconds * 1000
    → names id (due_rows other_limit later after) ≡ false
unfolding claim_due_executions
claim_excludes id worker limit seconds now table after h run other_limit later le =
    due_rows-Lacks id worker (now + seconds * 1000) other_limit later after
      (OthersRun-IsLeased id worker (now + seconds * 1000) run
        (claimed-IsLeased id worker limit seconds now (due_rows limit now table) table h))
      le
