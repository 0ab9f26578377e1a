-- ===== src/Store/Leases/Unclaimed.antt =====
-- A leased row is not claimed.
use cell_flow.Prelude.{
  ℕ, zero, suc, ◌≡◌, ◌≤◌, min, max, false, Bool, some, String, arith, refl, eq_iff, ◌==◌, string_eq,
  option_eq, List, [], ◌∷◌, All, select,
}
use cell_flow.Store.Leases.{LeasedRow, is_claimable, insert_by_due, by_due, take, due_rows, names}

-- Every row of this identifier is leased to the worker up to the time.
abbrev pub IsLeased : String → String → ℕ → List LeasedRow → Type 0
IsLeased id worker until =
    All λ r. r.id ≡ id → (r.lease_id ≡ some worker) × (r.lease_until ≡ some until)

-- No row of the list has the identifier.
abbrev pub Lacks : String → List LeasedRow → Type 0
Lacks id rows = names id rows ≡ false

select-Lacks :
    (id : String) (p : LeasedRow → Bool) (rows : List LeasedRow)
    → All (λ r. r.id ≡ id → p r ≡ false) rows
    → Lacks id (select p rows)
select-Lacks id p [] h = refl
select-Lacks id p (r ∷ rows) h = ground (arith, eq_iff r.id id, h.0, select-Lacks id p rows h.1)

insert_by_due-Lacks :
    (id : String) (r : LeasedRow) (rows : List LeasedRow)
    → r.id == id ≡ false
    → Lacks id rows
    → Lacks id (insert_by_due r rows)
unfolding insert_by_due
insert_by_due-Lacks id r [] n h = ground arith
insert_by_due-Lacks id r (s ∷ rows) n h = ground (arith, insert_by_due-Lacks id r rows n)

by_due-Lacks : (id : String) (rows : List LeasedRow) → Lacks id rows → Lacks id (by_due rows)
unfolding by_due
by_due-Lacks id [] h = refl
by_due-Lacks id (r ∷ rows) h =
    insert_by_due-Lacks id r (by_due rows) (ground arith) (by_due-Lacks id rows (ground arith))

take-Lacks : (id : String) (n : ℕ) (rows : List LeasedRow) → Lacks id rows → Lacks id (take n rows)
take-Lacks id zero rows h = refl
take-Lacks id (suc n) [] h = refl
take-Lacks id (suc n) (r ∷ rows) h = ground (arith, take-Lacks id n rows)

leased_not_claimable :
    (id worker : String) (until now : ℕ) (rows : List LeasedRow)
    → IsLeased id worker until rows
    → now ≤ until
    → All (λ r. r.id ≡ id → is_claimable now r ≡ false) rows
unfolding is_claimable
leased_not_claimable id worker until now [] h le = tt
leased_not_claimable id worker until now (r ∷ rows) h le = (
  λ q. let (_, held) = h.0 q in ground arith,
  leased_not_claimable id worker until now rows h.1 le,
)

-- A leased row is not due.
pub due_rows-Lacks :
    (id worker : String) (until limit now : ℕ) (table : List LeasedRow)
    → IsLeased id worker until table
    → now ≤ until
    → Lacks id (due_rows limit now table)
unfolding due_rows
due_rows-Lacks id worker until limit now table h le =
    take-Lacks id (min (max limit 1) 100) (by_due (select (is_claimable now) table)) (
      by_due-Lacks id (select (is_claimable now) table) (
        select-Lacks id (is_claimable now) table
          (leased_not_claimable id worker until now table h le)))
