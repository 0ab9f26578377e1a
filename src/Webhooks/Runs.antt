-- ===== src/Webhooks/Runs.antt =====
-- The deliveries of a project under any number of workers, and the attempts that each records.
use cell_flow.Prelude.{
  ℕ, suc, ◌≡◌, ◌≢◌, ◌≤◌, true, false, List, [], ◌++◌, map, Option, some, String, string_eq,
  option_eq, All, Any, arith, sym, ap, ◌∙◌, eq_iff, subst,
}
use cell_flow.Core.Settlement.{truthy}
use cell_flow.Store.Outbox.{WebhookEndpointRecord}
use cell_flow.Store.Deliveries.{
  DeliveryRow, delivery_eq, claim_due_webhook_deliveries, claim_webhook_deliveries_for_event,
  renew_webhook_delivery_lease, release_webhook_delivery_lease, retry_failed_webhook_deliveries,
  claimed_row, returned, chosen_id,
}
use cell_flow.Webhooks.{Attempting, Posted, deliver_webhook, most_attempts}
use cell_flow.Store.Deliveries.Candidates.{is_over, IsOnly}
use cell_flow.Prelude.Everywhere.{All-map, All-both, All-imp, All-select, All-append}
use cell_flow.Webhooks.Attempts.{fits, Follows, claimed_fits, claimed-Follows}

-- What workers and users do, with what the claims have handed out: each worker claims under an
-- owner of its own, and attempts what it was handed. The number is that of the retries by hand.
pub data DeliveryRun (most : ℕ) (start : List DeliveryRow)
    : ℕ → List DeliveryRow → List DeliveryRow → Type 0 where
  idle : DeliveryRun most start 0 [] start
  claims :
      {n : ℕ} {handed table : List DeliveryRow} (limit : ℕ) (owner : String) (seconds now : ℕ)
      (project : Option String)
      → DeliveryRun most start n handed table
      → owner ≢ ""
      → All (λ d. d.lease_owner ≢ some owner) handed
      → DeliveryRun most start n
          ((claim_due_webhook_deliveries limit owner seconds now project table).0 ++ handed)
          (claim_due_webhook_deliveries limit owner seconds now project table).1
  claims_event :
      {n : ℕ} {handed table : List DeliveryRow} (project event owner : String) (seconds now : ℕ)
      → DeliveryRun most start n handed table
      → owner ≢ ""
      → All (λ d. d.lease_owner ≢ some owner) handed
      → DeliveryRun most start n
          ((claim_webhook_deliveries_for_event project event owner seconds now table).0 ++ handed)
          (claim_webhook_deliveries_for_event project event owner seconds now table).1
  renews :
      {n : ℕ} {handed table : List DeliveryRow} (id owner : String) (seconds now : ℕ)
      → DeliveryRun most start n handed table
      → DeliveryRun most start n handed (renew_webhook_delivery_lease id owner seconds now table).1
  releases :
      {n : ℕ} {handed table : List DeliveryRow} (id owner : String) (now : ℕ)
      → DeliveryRun most start n handed table
      → DeliveryRun most start n handed (release_webhook_delivery_lease id owner now table)
  delivers :
      {n : ℕ} {handed table : List DeliveryRow} (http_error : ℕ → String) (p : Attempting)
      (endpoints : List WebhookEndpointRecord) (posted : Posted) (d : DeliveryRow) (at : ℕ)
      → DeliveryRun most start n handed table
      → Any (λ x. x ≡ d) handed
      → most_attempts p ≤ most
      → DeliveryRun most start n handed (deliver_webhook http_error p endpoints posted d at table)
  retries :
      {n : ℕ} {handed table : List DeliveryRow} (project : String) (endpoint : Option String)
      (now : ℕ)
      → DeliveryRun most start n handed table
      → DeliveryRun most start
          (suc n)
          handed
          (retry_failed_webhook_deliveries project endpoint now table)

-- Everything handed out has an owner and follows the table, whose rows fit the bound.
pub record Fits (bound : ℕ) (handed table : List DeliveryRow) : Type 0 where
  pub fitting : All (λ r. fits bound r ≡ true) table
  pub only : All (λ r. IsOnly r table) table
  pub owned : All (λ d. truthy d.lease_owner ≡ true) handed
  pub following : All (λ d. All (Follows d) table) handed

-- An update of each row that keeps the identifiers keeps them apart.
pub IsOnly-map :
    (f : DeliveryRow → DeliveryRow) (table : List DeliveryRow)
    → ((r : DeliveryRow) → (f r).id ≡ r.id)
    → All (λ r. IsOnly r table) table
    → All (λ r. IsOnly r (map f table)) (map f table)
IsOnly-map f table same only =
    All-map (λ r. IsOnly r table) (λ r. IsOnly r (map f table)) f
      (λ r.
        All-map (λ s. r.id ≡ s.id → r ≡ s) (λ s. (f r).id ≡ s.id → f r ≡ s) f
          (λ s k q. ap f (k (sym (same r) ∙ q ∙ same s))) table)
      table only

pub following-map :
    (K : DeliveryRow → Type 0) (f : DeliveryRow → DeliveryRow) (handed table : List DeliveryRow)
    → ((d r : DeliveryRow) → K d → Follows d r → Follows d (f r))
    → All K handed
    → All (λ d. All (Follows d) table) handed
    → All (λ d. All (Follows d) (map f table)) handed
following-map K f handed table step owned following =
    All-both K (λ d. All (Follows d) table) (λ d. All (Follows d) (map f table))
      (λ d t. All-map (Follows d) (Follows d) f (λ r. step d r t) table) handed owned following

-- An update that hands nothing out.
pub quiet-Fits :
    (bound later : ℕ) (f : DeliveryRow → DeliveryRow) (handed table : List DeliveryRow)
    → ((r : DeliveryRow) → (f r).id ≡ r.id)
    → ((d r : DeliveryRow) → truthy d.lease_owner ≡ true → Follows d r → Follows d (f r))
    → ((r : DeliveryRow) → fits bound r ≡ true → fits later (f r) ≡ true)
    → Fits bound handed table
    → Fits later handed (map f table)
quiet-Fits bound later f handed table same step fit h = record {
  fitting = All-map (λ r. fits bound r ≡ true) (λ r. fits later r ≡ true) f fit table h.fitting;
  only = IsOnly-map f table same h.only;
  owned = h.owned;
  following =
      following-map (λ d. truthy d.lease_owner ≡ true) f handed table step h.owned h.following;
}

claimed_id :
    (candidates : List DeliveryRow) (owner : String) (until : Option ℕ) (r : DeliveryRow)
    → (claimed_row candidates owner until r).id ≡ r.id
unfolding claimed_row
claimed_id candidates owner until r = ground arith

claimed_owned :
    (candidates : List DeliveryRow) (owner : String) (until : Option ℕ) (r : DeliveryRow)
    → owner ≢ ""
    → chosen_id r.id candidates ≡ true
    → truthy (claimed_row candidates owner until r).lease_owner ≡ true
unfolding claimed_row
claimed_owned candidates owner until r n c = rw c (ground (arith, eq_iff owner ""))

pub claim-Fits :
    (bound : ℕ) (candidates : List DeliveryRow) (owner : String) (until : Option ℕ)
    (handed table : List DeliveryRow)
    → owner ≢ ""
    → All (λ d. d.lease_owner ≢ some owner) handed
    → ((r : DeliveryRow) → is_over r ≡ true → IsOnly r table → chosen_id r.id candidates ≡ false)
    → Fits bound handed table
    → Fits bound
        (returned candidates (map (claimed_row candidates owner until) table) ++ handed)
        (map (claimed_row candidates owner until) table)
claim-Fits bound candidates owner until handed table n fresh over h =
    let f = claimed_row candidates owner until in
    let after = map f table in
    let chosen = λ (r : DeliveryRow). chosen_id r.id candidates in
    let only = IsOnly-map f table (claimed_id candidates owner until) h.only in
    record {
      fitting =
          All-map (λ r. IsOnly r table × (fits bound r ≡ true)) (λ r. fits bound r ≡ true) f
            (λ r (o, b). claimed_fits bound candidates owner until r (λ v. over r v o) b) table
            (All-both (λ r. IsOnly r table) (λ r. fits bound r ≡ true)
              (λ r. IsOnly r table × (fits bound r ≡ true)) (λ r o b. (o, b)) table h.only
              h.fitting);
      only = only;
      owned =
          All-append (λ d. truthy d.lease_owner ≡ true) (returned candidates after) handed
            (All-select (λ d. chosen d ≡ true → truthy d.lease_owner ≡ true)
              (λ d. truthy d.lease_owner ≡ true) chosen (λ d c k. k c) after
              (All-map (λ r. IsOnly r table) (λ d. chosen d ≡ true → truthy d.lease_owner ≡ true) f
                (λ r o c. claimed_owned candidates owner until r n (
                  subst (λ x. chosen_id x candidates ≡ true) (claimed_id candidates owner until r)
                    c))
                table h.only))
            h.owned;
      following =
          All-append (λ d. All (Follows d) after) (returned candidates after) handed
            (All-select (λ d. IsOnly d after) (λ d. All (Follows d) after) chosen
              (λ d c.
                All-imp (λ s. d.id ≡ s.id → d ≡ s) (Follows d)
                  (λ s k q l. ap (λ (r : DeliveryRow). r.attempt_count) (sym (k (sym q)))) after)
              after only)
            (following-map (λ d. d.lease_owner ≢ some owner) f handed table
              (claimed-Follows candidates owner until) fresh h.following);
    }
