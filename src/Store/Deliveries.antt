-- ===== src/Store/Deliveries.antt =====
-- packages/db/src/repository.ts: the rows of webhook_deliveries, without the payload, and what claims,
-- renews, releases, completes and retries them. Times are in milliseconds; each call is one
-- transaction at the database's time. The rows a claim gives are in the table's order.
pub mod Candidates
use cell_flow.Prelude.{
  ℕ, ◌+◌, min, max, Bool, true, false, not, ◌&&◌, ◌||◌, List, [], ◌∷◌, map, Option, none, some,
  String, if◌then◌else◌, ◌==◌, string_eq, option_eq, any, select, leb, ltb, length, nat_beq, ◌≡◌,
  ◌↔◌, Eq, arith, is_some,
}
use cell_flow.Core.Settlement.{truthy}
use cell_flow.Store.Leases.{take, until_after, lapsed}

pub data DeliveryStatus : Type 0 where
  pending : DeliveryStatus
  claimed : DeliveryStatus
  retry : DeliveryStatus
  delivered : DeliveryStatus
  failed : DeliveryStatus

abbrev pub delivery_rank : DeliveryStatus → ℕ
delivery_rank DeliveryStatus.pending = 0
delivery_rank DeliveryStatus.claimed = 1
delivery_rank DeliveryStatus.retry = 2
delivery_rank DeliveryStatus.delivered = 3
delivery_rank DeliveryStatus.failed = 4

abbrev pub delivery_beq : DeliveryStatus → DeliveryStatus → Bool
delivery_beq a b = nat_beq (delivery_rank a) (delivery_rank b)

pub delivery_beq_iff : (a b : DeliveryStatus) → (delivery_beq a b ≡ true) ↔ (a ≡ b)
delivery_beq_iff a b = ground arith

instance abbrev pub delivery_eq : Eq DeliveryStatus
delivery_eq = record { beq = delivery_beq; beq_iff = delivery_beq_iff }

pub record DeliveryRow : Type 0 where
  pub id : String
  pub project_id : String
  pub endpoint_id : String
  pub event_id : String
  pub attempt_count : ℕ
  pub status : DeliveryStatus
  pub next_attempt_at : Option ℕ
  pub lease_owner : Option String
  pub lease_until : Option ℕ
  pub response_status : Option ℕ
  pub last_error : Option String
  pub delivered_at : Option ℕ

-- `status in ('PENDING','RETRY')`.
abbrev pub is_waiting : DeliveryRow → Bool
is_waiting r = r.status == DeliveryStatus.pending || r.status == DeliveryStatus.retry

-- `coalesce(next_attempt_at, now()) <= now()`.
abbrev pub is_due : Option ℕ → ℕ → Bool
is_due none now = true
is_due (some at) now = leb at now

-- `until < now()`, which is not so of `null`.
abbrev pub is_before : Option ℕ → ℕ → Bool
is_before none now = false
is_before (some until) now = ltb until now

-- The `where` of the claim, apart from the project.
unfoldable pub can_claim : ℕ → DeliveryRow → Bool
can_claim now r =
    (is_waiting r || (r.status == DeliveryStatus.claimed && is_before r.lease_until now))
    && is_due r.next_attempt_at now
    && lapsed r.lease_until now

abbrev pub of_project : Option String → DeliveryRow → Bool
of_project none r = true
of_project (some p) r = p == "" || r.project_id == p

-- Whether a time stands before another in ascending order, where `null` is last.
abbrev pub attempt_before : Option ℕ → Option ℕ → Bool
attempt_before (some a) (some b) = leb a b
attempt_before (some a) none = true
attempt_before none (some b) = false
attempt_before none none = true

abbrev pub insert_by_attempt : DeliveryRow → List DeliveryRow → List DeliveryRow
insert_by_attempt r [] = r ∷ []
insert_by_attempt r (s ∷ rest) =
    let later = insert_by_attempt r rest in
    if attempt_before r.next_attempt_at s.next_attempt_at then r ∷ s ∷ rest else s ∷ later

-- `order by next_attempt_at asc`.
abbrev pub by_attempt : List DeliveryRow → List DeliveryRow
by_attempt [] = []
by_attempt (r ∷ rest) = insert_by_attempt r (by_attempt rest)

unfoldable pub due_deliveries : ℕ → ℕ → Option String → List DeliveryRow → List DeliveryRow
due_deliveries limit now project table =
    take (min (max limit 1) 100)
      (by_attempt (select (λ r. of_project project r && can_claim now r) table))

abbrev pub chosen_id : String → List DeliveryRow → Bool
chosen_id id rows = any (λ r. r.id == id) rows

-- The update of a candidate.
unfoldable pub claimed_row : List DeliveryRow → String → Option ℕ → DeliveryRow → DeliveryRow
claimed_row candidates owner until r =
    if chosen_id r.id candidates
    then record r { status = DeliveryStatus.claimed; lease_owner = some owner; lease_until = until }
    else r

-- The rows that the updates return.
abbrev pub returned : List DeliveryRow → List DeliveryRow → List DeliveryRow
returned candidates table = select (λ r. chosen_id r.id candidates) table

unfoldable pub claim_due_webhook_deliveries :
    ℕ → String → ℕ → ℕ → Option String → List DeliveryRow → List DeliveryRow × List DeliveryRow
claim_due_webhook_deliveries limit owner seconds now project table =
    let candidates = due_deliveries limit now project table in
    let after = map (claimed_row candidates owner (until_after now seconds)) table in
    (returned candidates after, after)

unfoldable pub event_deliveries : String → String → ℕ → List DeliveryRow → List DeliveryRow
event_deliveries project event now table =
    select
      (λ r.
        r.project_id == project
        && r.event_id == event
        && is_waiting r
        && is_due r.next_attempt_at now
        && lapsed r.lease_until now)
      table

unfoldable pub claim_webhook_deliveries_for_event :
    String → String → String → ℕ → ℕ → List DeliveryRow → List DeliveryRow × List DeliveryRow
claim_webhook_deliveries_for_event project event owner seconds now table =
    let candidates = event_deliveries project event now table in
    let until = until_after now (min (max seconds 15) 300) in
    let after = map (claimed_row candidates owner until) table in (returned candidates after, after)

-- Whether the update of the holder of a lease finds the row.
abbrev pub is_held : String → String → DeliveryRow → Bool
is_held id owner r = r.id == id && r.lease_owner == some owner && r.status == DeliveryStatus.claimed

unfoldable pub renewed_row : String → String → ℕ → ℕ → DeliveryRow → DeliveryRow
renewed_row id owner seconds now r =
    if is_held id owner r
    then record r { lease_until = until_after now (min (max seconds 15) 900) }
    else r

unfoldable pub renew_webhook_delivery_lease :
    String → String → ℕ → ℕ → List DeliveryRow → Bool × List DeliveryRow
renew_webhook_delivery_lease id owner seconds now table = (
  nat_beq (length (select (is_held id owner) table)) 1,
  map (renewed_row id owner seconds now) table,
)

abbrev pub or_now : ℕ → Option ℕ → Option ℕ
or_now now none = some now
or_now now (some at) = some at

unfoldable pub released_row : String → String → ℕ → DeliveryRow → DeliveryRow
released_row id owner now r =
    if is_held id owner r
    then record r {
      status = DeliveryStatus.retry;
      lease_owner = none;
      lease_until = none;
      next_attempt_at = or_now now r.next_attempt_at;
    }
    else r

unfoldable pub release_webhook_delivery_lease :
    String → String → ℕ → List DeliveryRow → List DeliveryRow
release_webhook_delivery_lease id owner now table = map (released_row id owner now) table

pub record CompleteInput : Type 0 where
  pub id : String
  pub lease_owner : Option String
  pub success : Bool
  pub response_status : Option ℕ
  pub error : Option String
  pub retry_at : Option ℕ

abbrev pub completed_status : CompleteInput → DeliveryStatus
completed_status i =
    if i.success
    then DeliveryStatus.delivered
    else if is_some i.retry_at
    then DeliveryStatus.retry
    else DeliveryStatus.failed

abbrev pub completed : CompleteInput → ℕ → DeliveryRow → DeliveryRow
completed i now r = record r {
  attempt_count = r.attempt_count + 1;
  status = completed_status i;
  response_status = i.response_status;
  last_error = i.error;
  next_attempt_at = i.retry_at;
  delivered_at = if i.success then some now else none;
  lease_owner = none;
  lease_until = none;
}

-- The row is found by its identifier and, where one is given, by the owner.
unfoldable pub completed_row : CompleteInput → ℕ → DeliveryRow → DeliveryRow
completed_row i now r =
    if r.id == i.id && (not (truthy i.lease_owner) || r.lease_owner == i.lease_owner)
    then completed i now r
    else r

unfoldable pub complete_webhook_delivery : CompleteInput → ℕ → List DeliveryRow → List DeliveryRow
complete_webhook_delivery i now table = map (completed_row i now) table

-- `retryFailedWebhookDeliveries` with an endpoint or, where none is given, for all of the project.
unfoldable pub retried_row : String → Option String → ℕ → DeliveryRow → DeliveryRow
retried_row project endpoint now r =
    if r.project_id == project
      && (not (truthy endpoint) || some r.endpoint_id == endpoint)
      && r.status == DeliveryStatus.failed
    then record r {
      status = DeliveryStatus.retry;
      next_attempt_at = some now;
      lease_owner = none;
      lease_until = none;
    }
    else r

unfoldable pub retry_failed_webhook_deliveries :
    String → Option String → ℕ → List DeliveryRow → List DeliveryRow
retry_failed_webhook_deliveries project endpoint now table =
    map (retried_row project endpoint now) table
