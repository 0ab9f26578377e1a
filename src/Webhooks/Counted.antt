-- ===== src/Webhooks/Counted.antt =====
-- What the recorded attempts of a delivery come to over a run.
use cell_flow.Prelude.{
  ℕ, suc, ◌+◌, ◌≡◌, ◌≤◌, true, List, [], String, string_eq, option_eq, All, Any, arith, subst, ◌⊎◌,
  ◌<◌,
}
use cell_flow.Core.Settlement.{truthy}
use cell_flow.Store.Outbox.{WebhookEndpointRecord, get_webhook_endpoint}
use cell_flow.Store.Deliveries.{
  DeliveryRow, delivery_eq, claim_due_webhook_deliveries, claim_webhook_deliveries_for_event,
  renew_webhook_delivery_lease, release_webhook_delivery_lease, retry_failed_webhook_deliveries,
  renewed_row, released_row, completed_row, retried_row, complete_webhook_delivery, due_deliveries,
  event_deliveries, DeliveryStatus,
}
use cell_flow.Webhooks.{
  Attempting, Posted, deliver_webhook, most_attempts, completion, delivery_outcome,
}
use cell_flow.Store.Deliveries.Candidates.{IsOnly, over_not_due, over_not_of_event}
use cell_flow.Prelude.Everywhere.{All-map, All-both, All-imp, All-at}
use cell_flow.Webhooks.Attempts.{
  fits, Follows, renewed_fits, released_fits, retried_fits, retry-count, completed_fits,
  renewed-Follows, released-Follows, retried-Follows, completed-Follows, renewed_id, released_id,
  retried_id, completed_id,
}
use cell_flow.Webhooks.Runs.{
  DeliveryRun, Fits, idle, claims, claims_event, renews, releases, delivers, retries, IsOnly-map,
  following-map, quiet-Fits, claim-Fits,
}

deliver-Fits :
    (most n : ℕ) (http_error : ℕ → String) (p : Attempting) (endpoints : List WebhookEndpointRecord)
    (posted : Posted) (d : DeliveryRow) (at : ℕ) (handed table : List DeliveryRow)
    → Any (λ x. x ≡ d) handed
    → most_attempts p ≤ most
    → Fits (most + n) handed table
    → Fits (most + n) handed (deliver_webhook http_error p endpoints posted d at table)
unfolding deliver_webhook complete_webhook_delivery
deliver-Fits most n http_error p endpoints posted d at handed table given le h =
    let endpoint = get_webhook_endpoint d.project_id d.endpoint_id endpoints in
    let o = delivery_outcome http_error p d endpoint posted in
    let t = All-at (λ d. truthy d.lease_owner ≡ true) d handed given h.owned in
    let follows = All-at (λ d. All (Follows d) table) d handed given h.following in
    let f = completed_row (completion d o) at in
    record {
      fitting =
          All-map (λ r. Follows d r × (fits (most + n) r ≡ true)) (λ r. fits (most + n) r ≡ true) f
            (λ r (w, b).
              completed_fits (most + n) d r o at t w
                (λ c. omega (arith, retry-count most http_error p d endpoint posted le c)) b)
            table
            (All-both (Follows d) (λ r. fits (most + n) r ≡ true)
              (λ r. Follows d r × (fits (most + n) r ≡ true)) (λ r w b. (w, b)) table follows
              h.fitting);
      only = IsOnly-map f table (completed_id (completion d o) at) h.only;
      owned = h.owned;
      following =
          following-map (λ d. truthy d.lease_owner ≡ true) f handed table
            (λ e r. completed-Follows (completion d o) at e r) h.owned h.following;
    }

-- The invariant of every run.
pub DeliveryRun-Fits :
    (most : ℕ) (start : List DeliveryRow) {n : ℕ} {handed table : List DeliveryRow}
    → Fits most [] start
    → DeliveryRun most start n handed table
    → Fits (most + n) handed table
unfolding claim_due_webhook_deliveries claim_webhook_deliveries_for_event
    renew_webhook_delivery_lease release_webhook_delivery_lease retry_failed_webhook_deliveries
DeliveryRun-Fits most start h idle = subst (λ b. Fits b [] start) (omega arith) h
DeliveryRun-Fits most start h
      (claims {n} {handed} {table} limit owner seconds now project run x fresh) =
    claim-Fits (most + n) (due_deliveries limit now project table) owner _ handed table x fresh
      (λ r. over_not_due limit now project r table) (DeliveryRun-Fits most start h run)
DeliveryRun-Fits most start h
      (claims_event {n} {handed} {table} project event owner seconds now run x fresh) =
    claim-Fits (most + n) (event_deliveries project event now table) owner _ handed table x fresh
      (λ r. over_not_of_event project event now r table) (DeliveryRun-Fits most start h run)
DeliveryRun-Fits most start h (renews {n} {handed} {table} id owner seconds now run) =
    quiet-Fits (most + n) (most + n) (renewed_row id owner seconds now) handed table
      (renewed_id id owner seconds now) (λ d r t. renewed-Follows id owner seconds now d r)
      (renewed_fits (most + n) id owner seconds now) (DeliveryRun-Fits most start h run)
DeliveryRun-Fits most start h (releases {n} {handed} {table} id owner now run) =
    quiet-Fits (most + n) (most + n) (released_row id owner now) handed table
      (released_id id owner now) (released-Follows id owner now)
      (released_fits (most + n) id owner now) (DeliveryRun-Fits most start h run)
DeliveryRun-Fits most start h
      (delivers {n} {handed} {table} http_error p endpoints posted d at run given le) =
    deliver-Fits most n http_error p endpoints posted d at handed table given le
      (DeliveryRun-Fits most start h run)
DeliveryRun-Fits most start h (retries {n} {handed} {table} project endpoint now run) =
    subst (λ b. Fits b handed (retry_failed_webhook_deliveries project endpoint now table))
      (omega arith)
      (quiet-Fits (most + n) (suc (most + n)) (retried_row project endpoint now) handed table
        (retried_id project endpoint now) (retried-Follows project endpoint now)
        (retried_fits (most + n) project endpoint now) (DeliveryRun-Fits most start h run))

-- Whatever workers, each claiming under an owner of its own, and users do to deliveries within the
-- bound, the recorded attempt_count of a delivery does not pass the setting by more than one for every
-- retry by hand, and a delivery that has used it up is DELIVERED or FAILED. A post whose worker has
-- lost its lease, or stopped before its report, is not recorded and not bounded by this.
pub attempt_count_bounded :
    (most : ℕ) (start : List DeliveryRow) (n : ℕ) (handed table : List DeliveryRow)
    → All (λ r. fits most r ≡ true) start
    → All (λ r. IsOnly r start) start
    → DeliveryRun most start n handed table
    → All
        (λ r.
          (r.attempt_count ≤ most + n)
          × ((r.attempt_count < most + n)
              ⊎ (r.status ≡ DeliveryStatus.delivered)
              ⊎ (r.status ≡ DeliveryStatus.failed)))
        table
attempt_count_bounded most start n handed table fitting only run =
    All-imp (λ r. fits (most + n) r ≡ true)
      (λ r.
        (r.attempt_count ≤ most + n)
        × ((r.attempt_count < most + n)
            ⊎ (r.status ≡ DeliveryStatus.delivered)
            ⊎ (r.status ≡ DeliveryStatus.failed)))
      (λ r h. ground arith) table
      (DeliveryRun-Fits most start
        (record { fitting = fitting; only = only; owned = tt; following = tt }) run).fitting
