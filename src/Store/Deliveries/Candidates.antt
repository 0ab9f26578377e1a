-- ===== src/Store/Deliveries/Candidates.antt =====
-- Which deliveries a claim leaves alone.
use cell_flow.Prelude.{
  ℕ, zero, suc, ◌≡◌, refl, arith, Bool, true, false, ◌||◌, List, [], ◌∷◌, All, any, min, max,
  select, Option, String, ◌&&◌, ◌==◌, string_eq, eq_iff, subst, sym,
}
use cell_flow.Prelude.Everywhere.{any-select, All-imp}
use cell_flow.Store.Leases.{take}
use cell_flow.Store.Deliveries.{
  DeliveryRow, DeliveryStatus, delivery_eq, can_claim, due_deliveries, event_deliveries, by_attempt,
  insert_by_attempt, chosen_id, of_project,
}

-- A delivery that has come to its end.
abbrev pub is_over : DeliveryRow → Bool
is_over r = r.status == DeliveryStatus.delivered || r.status == DeliveryStatus.failed

-- The identifier is a primary key.
abbrev pub IsOnly : DeliveryRow → List DeliveryRow → Type 0
IsOnly r = All λ s. r.id ≡ s.id → r ≡ s

any-take :
    (q : DeliveryRow → Bool) (n : ℕ) (rows : List DeliveryRow)
    → any q rows ≡ false
    → any q (take n rows) ≡ false
any-take q zero rows h = refl
any-take q (suc n) [] h = refl
any-take q (suc n) (r ∷ rows) h = ground (arith, any-take q n rows)

any-insert :
    (q : DeliveryRow → Bool) (r : DeliveryRow) (rows : List DeliveryRow)
    → q r ≡ false
    → any q rows ≡ false
    → any q (insert_by_attempt r rows) ≡ false
any-insert q r [] n h = ground arith
any-insert q r (s ∷ rows) n h = ground (arith, any-insert q r rows n)

any-by_attempt :
    (q : DeliveryRow → Bool) (rows : List DeliveryRow)
    → any q rows ≡ false
    → any q (by_attempt rows) ≡ false
any-by_attempt q [] h = refl
any-by_attempt q (r ∷ rows) h =
    any-insert q r (by_attempt rows) (ground arith) (any-by_attempt q rows (ground arith))

left_out :
    (p : DeliveryRow → Bool) (r : DeliveryRow) (table : List DeliveryRow)
    → p r ≡ false
    → IsOnly r table
    → chosen_id r.id (select p table) ≡ false
left_out p r table n only =
    any-select (λ s. s.id == r.id) p table
      (All-imp (λ s. r.id ≡ s.id → r ≡ s) (λ s. s.id == r.id ≡ true → p s ≡ false)
        (λ s same q. subst (λ x. p x ≡ false) (same (sym ((eq_iff s.id r.id).0 q))) n) table only)

-- A delivery that is over is claimed by nobody.
pub over_not_due :
    (limit now : ℕ) (project : Option String) (r : DeliveryRow) (table : List DeliveryRow)
    → is_over r ≡ true
    → IsOnly r table
    → chosen_id r.id (due_deliveries limit now project table) ≡ false
unfolding due_deliveries can_claim
over_not_due limit now project r table over only =
    let due = λ (s : DeliveryRow). of_project project s && can_claim now s in
    any-take (λ s. s.id == r.id) (min (max limit 1) 100) (by_attempt (select due table))
      (any-by_attempt (λ s. s.id == r.id) (select due table)
        (left_out due r table (ground arith) only))

pub over_not_of_event :
    (project event : String) (now : ℕ) (r : DeliveryRow) (table : List DeliveryRow)
    → is_over r ≡ true
    → IsOnly r table
    → chosen_id r.id (event_deliveries project event now table) ≡ false
unfolding event_deliveries
over_not_of_event project event now r table over only = left_out _ r table (ground arith) only
