-- ===== src/Webhooks/Attempts.antt =====
-- How the writes of deliveries act on the attempts of a row.
use cell_flow.Prelude.{
  ℕ, suc, ◌+◌, ◌≡◌, ◌≢◌, ◌≤◌, ◌<◌, Bool, true, false, not, ◌&&◌, ◌||◌, List, Option, none, some,
  String, ◌==◌, string_eq, option_eq, leb, ltb, is_none, refl, arith, eq_iff, ◌⊎◌, inl, inr,
  is_some, Bool-cases, if◌then◌else◌,
}
use cell_flow.Core.Settlement.{truthy}
use cell_flow.Store.Outbox.{WebhookEndpointRecord}
use cell_flow.Store.Deliveries.{
  DeliveryRow, DeliveryStatus, delivery_eq, claimed_row, renewed_row, released_row, completed_row,
  retried_row, chosen_id, CompleteInput, completed,
}
use cell_flow.Webhooks.{
  Attempting, Posted, answered, threw, most_attempts, Outcome, completion, delivery_outcome,
  posted_outcome, disabled_outcome, next_webhook_attempt,
}
use cell_flow.Store.Deliveries.Candidates.{is_over}

-- The attempts of a row are within a bound, below it while another may come, and only a claimed row
-- has an owner.
abbrev pub fits : ℕ → DeliveryRow → Bool
fits bound r =
    leb r.attempt_count bound
    && (is_over r || ltb r.attempt_count bound)
    && (r.status == DeliveryStatus.claimed || is_none r.lease_owner)

-- A row that is still leased as it was handed out counts the attempts that it counted then.
abbrev pub Follows : DeliveryRow → DeliveryRow → Type 0
Follows d r = r.id ≡ d.id → r.lease_owner ≡ d.lease_owner → r.attempt_count ≡ d.attempt_count

pub claimed_fits :
    (bound : ℕ) (candidates : List DeliveryRow) (owner : String) (until : Option ℕ)
    (r : DeliveryRow)
    → (is_over r ≡ true → chosen_id r.id candidates ≡ false)
    → fits bound r ≡ true
    → fits bound (claimed_row candidates owner until r) ≡ true
unfolding claimed_row
claimed_fits bound candidates owner until r c h = ground arith

pub renewed_fits :
    (bound : ℕ) (id owner : String) (seconds now : ℕ) (r : DeliveryRow)
    → fits bound r ≡ true
    → fits bound (renewed_row id owner seconds now r) ≡ true
unfolding renewed_row
renewed_fits bound id owner seconds now r h = ground arith

pub released_fits :
    (bound : ℕ) (id owner : String) (now : ℕ) (r : DeliveryRow)
    → fits bound r ≡ true
    → fits bound (released_row id owner now r) ≡ true
unfolding released_row
released_fits bound id owner now r h = ground arith

pub retried_fits :
    (bound : ℕ) (project : String) (endpoint : Option String) (now : ℕ) (r : DeliveryRow)
    → fits bound r ≡ true
    → fits (suc bound) (retried_row project endpoint now r) ≡ true
unfolding retried_row
retried_fits bound project endpoint now r h = ground arith

pub retry-count :
    (most : ℕ) (http_error : ℕ → String) (p : Attempting) (d : DeliveryRow)
    (endpoint : Option WebhookEndpointRecord) (posted : Posted)
    → most_attempts p ≤ most
    → is_some (delivery_outcome http_error p d endpoint posted).retry_at ≡ true
    → d.attempt_count + 1 < most
unfolding delivery_outcome disabled_outcome posted_outcome next_webhook_attempt
retry-count most http_error p d none posted le h = ground arith
retry-count most http_error p d (some e) (answered status retry_after) le h = ground arith
retry-count most http_error p d (some e) (threw message) le h = ground arith

test-true :
    {A : Type 0} (x y : A) (a b t : Bool)
    → t ≡ true
    → a && b ≡ true
    → (if a && (not t || b) then x else y) ≡ x
test-true x y true true true t h = refl
test-true x y true true false t h = ground arith
test-true x y true false _ t h = ground arith
test-true x y false b _ t h = ground arith

test-false :
    {A : Type 0} (x y : A) (a b t : Bool)
    → t ≡ true
    → a && b ≡ false
    → (if a && (not t || b) then x else y) ≡ y
test-false x y true true _ t h = ground arith
test-false x y true false true t h = refl
test-false x y true false false t h = ground arith
test-false x y false b _ t h = refl

given_owner :
    (owner : Option String) → truthy owner ≡ true → (if truthy owner then owner else none) ≡ owner
given_owner owner h = rw h refl

-- An attempt by an owner changes only the row that the owner holds.
completed_cases :
    (d r : DeliveryRow) (o : Outcome) (at : ℕ)
    → truthy d.lease_owner ≡ true
    → (completed_row (completion d o) at r ≡ r)
      ⊎ ((r.id ≡ d.id)
          × (r.lease_owner ≡ d.lease_owner)
          × (completed_row (completion d o) at r ≡ completed (completion d o) at r))
unfolding completed_row
completed_cases d r o at t =
    let owner = option_eq ⦃e = string_eq⦄ in
    let given = given_owner d.lease_owner t in
    let same_id = r.id == d.id in
    let same_owner = owner.beq r.lease_owner d.lease_owner in
    let done = completed (completion d o) at r in
    elim (Bool-cases (same_id && same_owner)) [
      | inl both ↦ inr (
        (eq_iff r.id d.id).0 (ground arith),
        (owner.beq_iff r.lease_owner d.lease_owner).0 (ground arith),
        rw given (test-true done r same_id same_owner _ t both),
      )
      | inr neither ↦ inl (rw given (test-false done r same_id same_owner _ t neither))
    ]

pub completed_fits :
    (bound : ℕ) (d r : DeliveryRow) (o : Outcome) (at : ℕ)
    → truthy d.lease_owner ≡ true
    → Follows d r
    → (is_some o.retry_at ≡ true → d.attempt_count + 1 < bound)
    → fits bound r ≡ true
    → fits bound (completed_row (completion d o) at r) ≡ true
completed_fits bound d r o at t f c h = elim (completed_cases d r o at t) [
  | inl same ↦ rw same h
  | inr (id, lease, done) ↦ rw done (let count = f id lease in ground (arith, c))
]

pub claimed-Follows :
    (candidates : List DeliveryRow) (owner : String) (until : Option ℕ) (d r : DeliveryRow)
    → d.lease_owner ≢ some owner
    → Follows d r
    → Follows d (claimed_row candidates owner until r)
unfolding claimed_row
claimed-Follows candidates owner until d r n h = λ q l. ground arith

pub renewed-Follows :
    (id owner : String) (seconds now : ℕ) (d r : DeliveryRow)
    → Follows d r
    → Follows d (renewed_row id owner seconds now r)
unfolding renewed_row
renewed-Follows id owner seconds now d r h = λ q l. ground arith

pub released-Follows :
    (id owner : String) (now : ℕ) (d r : DeliveryRow)
    → truthy d.lease_owner ≡ true
    → Follows d r
    → Follows d (released_row id owner now r)
unfolding released_row
released-Follows id owner now d r t h = λ q l. ground arith

pub retried-Follows :
    (project : String) (endpoint : Option String) (now : ℕ) (d r : DeliveryRow)
    → truthy d.lease_owner ≡ true
    → Follows d r
    → Follows d (retried_row project endpoint now r)
unfolding retried_row
retried-Follows project endpoint now d r t h = λ q l. ground arith

pub completed-Follows :
    (i : CompleteInput) (at : ℕ) (d r : DeliveryRow)
    → truthy d.lease_owner ≡ true
    → Follows d r
    → Follows d (completed_row i at r)
unfolding completed_row
completed-Follows i at d r t h = λ q l. ground arith

pub renewed_id :
    (id owner : String) (seconds now : ℕ) (r : DeliveryRow)
    → (renewed_row id owner seconds now r).id ≡ r.id
unfolding renewed_row
renewed_id id owner seconds now r = ground arith

pub released_id :
    (id owner : String) (now : ℕ) (r : DeliveryRow) → (released_row id owner now r).id ≡ r.id
unfolding released_row
released_id id owner now r = ground arith

pub retried_id :
    (project : String) (endpoint : Option String) (now : ℕ) (r : DeliveryRow)
    → (retried_row project endpoint now r).id ≡ r.id
unfolding retried_row
retried_id project endpoint now r = ground arith

pub completed_id : (i : CompleteInput) (at : ℕ) (r : DeliveryRow) → (completed_row i at r).id ≡ r.id
unfolding completed_row
completed_id i at r = ground arith
