-- ===== src/Examples/Working.antt =====
-- packages/db and packages/webhooks at work: leases and deliveries on small tables.
use cell_flow.Prelude.{
  ◌≡◌, ◌≢◌, ◌≤◌, ◌+◌, refl, true, false, List, [], ◌∷◌, some, none, String, All, Any, here, arith,
  if◌then◌else◌, ◌==◌, string_eq, eq_iff, select, ◌⊎◌, ◌<◌,
}
use cell_flow.Core.Status.{SubmissionStatus, ChainStatus, WorkflowStatus}
use cell_flow.Store.Outbox.{WebhookEndpointRecord}
use cell_flow.Store.Leases.{
  LeasedRow, is_claimable, due_rows, by_due, names, claim_due_executions, insert_by_due, due_before,
  leased,
}
use cell_flow.Store.Leases.Exclusion.{OthersRun, claim_excludes}
use cell_flow.Store.Deliveries.{
  DeliveryRow, DeliveryStatus, claim_due_webhook_deliveries, retry_failed_webhook_deliveries,
  can_claim, due_deliveries, claimed_row,
}
use cell_flow.Webhooks.{Attempting, Reading, answered, deliver_webhook}
use cell_flow.Webhooks.Runs.{DeliveryRun}
use cell_flow.Webhooks.Counted.{attempt_count_bounded}
use cell_flow.Webhooks.Final.{delivered_final}
use cell_flow.Json.{Json}
use cell_flow.Core.Errors.{ok}
use cell_flow.Store.Errors.{Stored}
use cell_flow.Store.Apply.{Rows}
use cell_flow.Store.Reading.{get_intent}
use cell_flow.Reconcile.Compete.{Scanning, is_competing, promote_committed_competing_candidate}
use cell_flow.Reconcile.Compete.Proven.{IsProven, SameProjection, promotion-IsProven}
use cell_flow.Examples.Node.{node}
use cell_flow.Examples.Deciding.{context}
use cell_flow.Examples.Attempts.{second_attempt}
use cell_flow.Examples.Contest.{contested, promoting}

abbrev due_execution : LeasedRow
due_execution = record {
  id = "e1";
  next_reconcile_at = some 1000;
  submission_status = SubmissionStatus.submitted;
  chain_status = ChainStatus.pending;
  workflow_status = WorkflowStatus.reconciling;
  conflict_type = none;
  lease_id = none;
  lease_until = none;
}

claim_excludes_example :
    names "e1" (
      due_rows 10 30000 (
        claim_due_executions 10 "w2" 60 20000
          (claim_due_executions 25 "w1" 60 2000 (due_execution ∷ []))))
    ≡ false
unfolding due_rows is_claimable by_due insert_by_due due_before leased claim_due_executions
claim_excludes_example =
    claim_excludes "e1" "w1" 25 60 2000 (due_execution ∷ []) _ refl
      (OthersRun.claims 10 "w2" 60 20000 OthersRun.nothing (omega arith)) 10 30000 (omega arith)

abbrev new_delivery : DeliveryRow
new_delivery = record {
  id = "d1";
  project_id = "p1";
  endpoint_id = "h1";
  event_id = "v1";
  attempt_count = 0;
  status = DeliveryStatus.pending;
  next_attempt_at = some 1000;
  lease_owner = none;
  lease_until = none;
  response_status = none;
  last_error = none;
  delivered_at = none;
}

abbrev endpoint : WebhookEndpointRecord
endpoint = record {
  id = "h1";
  project_id = "p1";
  url = "https://api.example.com/cellflow";
  signing_secret_encrypted = "c2VjcmV0";
  secret_version = 1;
  enabled = true;
}

abbrev reading : Reading
reading = record { milliseconds = λ s. if s == "120" then some 120000 else none; date = λ s. none }

abbrev attempting : Attempting
attempting = record { reading = reading; max_attempts = none; draw = 500; now = 5000 }

not_empty : (s : String) → s == "" ≡ false → s ≢ ""
not_empty s h e = ground (arith, h, (eq_iff s "").1 e)

-- The endpoint answers 503 to the worker that claimed the delivery.
abbrev claimed_table : List DeliveryRow
claimed_table = (claim_due_webhook_deliveries 25 "w1" 60 2000 none (new_delivery ∷ [])).1

abbrev claimed_delivery : DeliveryRow
claimed_delivery = record new_delivery {
  status = DeliveryStatus.claimed;
  lease_owner = some "w1";
  lease_until = some 62000;
}

abbrev attempted_table : List DeliveryRow
attempted_table =
    deliver_webhook (λ status. "HTTP 503") attempting (endpoint ∷ []) (answered 503 (some "120"))
      claimed_delivery 5000 claimed_table

attempt_count_bounded_example :
    All
      (λ r.
        (r.attempt_count ≤ 8 + 0)
        × ((r.attempt_count < 8 + 0)
            ⊎ (r.status ≡ DeliveryStatus.delivered)
            ⊎ (r.status ≡ DeliveryStatus.failed)))
      attempted_table
unfolding claim_due_webhook_deliveries due_deliveries can_claim claimed_row
attempt_count_bounded_example =
    attempt_count_bounded 8 (new_delivery ∷ []) 0 _ attempted_table (refl, tt) ((λ q. refl, tt), tt)
      (DeliveryRun.delivers (λ status. "HTTP 503") attempting (endpoint ∷ [])
        (answered 503 (some "120")) claimed_delivery 5000
        (DeliveryRun.claims 25 "w1" 60 2000 none DeliveryRun.idle (not_empty "w1" refl) tt)
        (here refl) (omega arith))

abbrev delivered_row : DeliveryRow
delivered_row = record new_delivery {
  attempt_count = 1;
  status = DeliveryStatus.delivered;
  next_attempt_at = none;
  response_status = some 204;
  delivered_at = some 5000;
}

delivered_final_example :
    Any
      (λ s. s ≡ delivered_row)
      (claim_due_webhook_deliveries 25 "w2" 60 90000 none
        (retry_failed_webhook_deliveries "p1" none 80000 (delivered_row ∷ []))).1
delivered_final_example =
    delivered_final 8 (delivered_row ∷ []) 1 _ _ delivered_row (refl, tt) ((λ q. refl, tt), tt)
      (DeliveryRun.claims 25 "w2" 60 90000 none
        (DeliveryRun.retries "p1" none 80000 DeliveryRun.idle) (not_empty "w2" refl) tt)
      refl (here refl)

-- The node shows the transaction of every candidate as committed.
abbrev scanning : Scanning
scanning = record {
  context = context;
  session = λ a. node;
  info = λ a. ok Json.null;
  updated_at = "noon";
  draws = promoting;
  next_reconcile_at = "later";
}

-- The candidate "b" competes with the attempt that drives the intent.
one_candidate :
    select (is_competing (get_intent contested)) (get_intent contested).attempts
    ≡ second_attempt ∷ []
unfolding get_intent
one_candidate = refl

promotion-IsProven_example :
    SameProjection
      (promote_committed_competing_candidate scanning (get_intent contested) contested).rows
      contested
    × (((promote_committed_competing_candidate scanning (get_intent contested) contested).promoted
          ≡ none)
        ⊎ ((result : Stored Rows) × ((promote_committed_competing_candidate scanning
                (get_intent contested)
                contested).promoted
              ≡ some result)
            × Any
                (IsProven scanning
                  (get_intent contested)
                  (promote_committed_competing_candidate scanning
                    (get_intent contested)
                    contested).rows
                  result)
                (select (is_competing (get_intent contested)) (get_intent contested).attempts)))
promotion-IsProven_example = promotion-IsProven scanning (get_intent contested) contested
