-- ===== src/Webhooks/Final.antt =====
-- A delivery that is DELIVERED is at its end.
use cell_flow.Prelude.{
  ℕ, ◌≡◌, true, false, List, [], ◌∷◌, map, Option, none, String, All, Any, here, there, arith, ap,
  ◌∙◌, option_eq, string_eq, refl,
}
use cell_flow.Prelude.Everywhere.{All-at}
use cell_flow.Core.Settlement.{truthy}
use cell_flow.Store.Outbox.{get_webhook_endpoint}
use cell_flow.Store.Deliveries.{
  DeliveryRow, DeliveryStatus, delivery_eq, claim_due_webhook_deliveries,
  claim_webhook_deliveries_for_event, renew_webhook_delivery_lease, release_webhook_delivery_lease,
  retry_failed_webhook_deliveries, claimed_row, renewed_row, released_row, retried_row,
  completed_row, chosen_id, due_deliveries, event_deliveries, complete_webhook_delivery,
}
use cell_flow.Store.Deliveries.Candidates.{IsOnly, is_over, over_not_due, over_not_of_event}
use cell_flow.Webhooks.{deliver_webhook, completion, Outcome, delivery_outcome}
use cell_flow.Webhooks.Attempts.{fits}
use cell_flow.Webhooks.Counted.{DeliveryRun-Fits}
use cell_flow.Webhooks.Runs.{
  DeliveryRun, Fits, idle, claims, claims_event, renews, releases, delivers, retries,
}

-- The row stands in the table, delivered and without an owner.
record Stands (r : DeliveryRow) (table : List DeliveryRow) : Type 0 where
  there_is : Any (λ s. s ≡ r) table
  status : r.status ≡ DeliveryStatus.delivered
  free : r.lease_owner ≡ none

Any-map :
    (f : DeliveryRow → DeliveryRow) (r : DeliveryRow) (table : List DeliveryRow)
    → f r ≡ r
    → Any (λ s. s ≡ r) table
    → Any (λ s. s ≡ r) (map f table)
Any-map f r [] same a = elim a [ ]
Any-map f r (s ∷ table) same (here e) = here (ap f e ∙ same)
Any-map f r (s ∷ table) same (there a) = there (Any-map f r table same a)

keeps-Stands :
    (f : DeliveryRow → DeliveryRow) (r : DeliveryRow) (table : List DeliveryRow)
    → f r ≡ r
    → Stands r table
    → Stands r (map f table)
keeps-Stands f r table same h = record {
  there_is = Any-map f r table same h.there_is;
  status = h.status;
  free = h.free;
}

claimed_same :
    (candidates : List DeliveryRow) (owner : String) (until : Option ℕ) (r : DeliveryRow)
    → chosen_id r.id candidates ≡ false
    → claimed_row candidates owner until r ≡ r
unfolding claimed_row
claimed_same candidates owner until r c = rw c refl

renewed_same :
    (id owner : String) (seconds now : ℕ) (r : DeliveryRow)
    → r.status ≡ DeliveryStatus.delivered
    → renewed_row id owner seconds now r ≡ r
unfolding renewed_row
renewed_same id owner seconds now r h = ground arith

released_same :
    (id owner : String) (now : ℕ) (r : DeliveryRow)
    → r.status ≡ DeliveryStatus.delivered
    → released_row id owner now r ≡ r
unfolding released_row
released_same id owner now r h = ground arith

retried_same :
    (project : String) (endpoint : Option String) (now : ℕ) (r : DeliveryRow)
    → r.status ≡ DeliveryStatus.delivered
    → retried_row project endpoint now r ≡ r
unfolding retried_row
retried_same project endpoint now r h = ground arith

completed_same :
    (d r : DeliveryRow) (o : Outcome) (at : ℕ)
    → truthy d.lease_owner ≡ true
    → r.lease_owner ≡ none
    → completed_row (completion d o) at r ≡ r
unfolding completed_row
completed_same d r o at t h = ground arith

over : (r : DeliveryRow) → r.status ≡ DeliveryStatus.delivered → is_over r ≡ true
over r h = ground arith

DeliveryRun-Stands :
    (most : ℕ) (start : List DeliveryRow) (r : DeliveryRow) {n : ℕ}
    {handed table : List DeliveryRow}
    → Fits most [] start
    → Stands r start
    → DeliveryRun most start n handed table
    → Stands r table
unfolding claim_due_webhook_deliveries claim_webhook_deliveries_for_event
    renew_webhook_delivery_lease release_webhook_delivery_lease retry_failed_webhook_deliveries
    deliver_webhook complete_webhook_delivery
DeliveryRun-Stands most start r h s idle = s
DeliveryRun-Stands most start r h s
      (claims {handed = handed} {table = table} limit owner seconds now project run x fresh) =
    let before = DeliveryRun-Stands most start r h s run in
    let only =
      All-at (λ r. IsOnly r table) r table before.there_is
        (DeliveryRun-Fits most start h run).only in
    keeps-Stands _ r table
      (claimed_same (due_deliveries limit now project table) owner _ r
        (over_not_due limit now project r table (over r before.status) only))
      before
DeliveryRun-Stands most start r h s
      (claims_event {handed = handed} {table = table} project event owner seconds now run x fresh) =
    let before = DeliveryRun-Stands most start r h s run in
    let only =
      All-at (λ r. IsOnly r table) r table before.there_is
        (DeliveryRun-Fits most start h run).only in
    keeps-Stands _ r table
      (claimed_same (event_deliveries project event now table) owner _ r
        (over_not_of_event project event now r table (over r before.status) only))
      before
DeliveryRun-Stands most start r h s (renews {table = table} id owner seconds now run) =
    let before = DeliveryRun-Stands most start r h s run in
    keeps-Stands _ r table (renewed_same id owner seconds now r before.status) before
DeliveryRun-Stands most start r h s (releases {table = table} id owner now run) =
    let before = DeliveryRun-Stands most start r h s run in
    keeps-Stands _ r table (released_same id owner now r before.status) before
DeliveryRun-Stands most start r h s
      (delivers {handed = handed} {table = table} http_error p endpoints posted d at run given le) =
    let before = DeliveryRun-Stands most start r h s run in
    let endpoint = get_webhook_endpoint d.project_id d.endpoint_id endpoints in
    let o = delivery_outcome http_error p d endpoint posted in
    let owned =
      All-at (λ d. truthy d.lease_owner ≡ true) d handed given
        (DeliveryRun-Fits most start h run).owned in
    keeps-Stands _ r table (completed_same d r o at owned before.free) before
DeliveryRun-Stands most start r h s (retries {table = table} project endpoint now run) =
    let before = DeliveryRun-Stands most start r h s run in
    keeps-Stands _ r table (retried_same project endpoint now r before.status) before

-- A delivery that is DELIVERED stays as it is: no claim, report of a worker that came late or retry
-- by hand changes it.
pub delivered_final :
    (most : ℕ) (start : List DeliveryRow) (n : ℕ) (handed table : List DeliveryRow)
    (r : DeliveryRow)
    → All (λ r. fits most r ≡ true) start
    → All (λ r. IsOnly r start) start
    → DeliveryRun most start n handed table
    → r.status ≡ DeliveryStatus.delivered
    → Any (λ s. s ≡ r) start
    → Any (λ s. s ≡ r) table
delivered_final most start n handed table r fitting only run done given =
    let fit = All-at (λ r. fits most r ≡ true) r start given fitting in
    (DeliveryRun-Stands most start r
      (record { fitting = fitting; only = only; owned = tt; following = tt })
      (record { there_is = given; status = done; free = ground arith }) run).there_is
