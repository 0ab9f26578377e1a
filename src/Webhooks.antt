-- ===== src/Webhooks.antt =====
-- packages/webhooks/src/delivery.ts: one attempt at a delivery and the time of the next. Times are in
-- milliseconds. The post with what precedes it in the `try` (the check of the destination, the
-- secret and the signature) is its outcome, and the reading of numbers and dates in texts a
-- parameter.
pub mod Bounds
pub mod Attempts
pub mod Runs
pub mod Counted
pub mod Final
pub mod Destination
use cell_flow.Prelude.{
  ℕ, ◌+◌, ◌-◌, ◌*◌, ◌^◌, min, max, Bool, true, false, ◌&&◌, ◌||◌, List, [], ◌∷◌, Option, none, some,
  String, if◌then◌else◌, ◌==◌, string_eq, nat_eq, leb, ltb, find,
}
use cell_flow.Core.Settlement.{truthy}
use cell_flow.Core.Config.{bounded_integer}
use cell_flow.Store.Outbox.{WebhookEndpointRecord, get_webhook_endpoint}
use cell_flow.Store.Deliveries.{DeliveryRow, CompleteInput, complete_webhook_delivery}

-- `draw` is `Math.floor(Math.random() * 1_000)`.
unfoldable pub webhook_backoff_ms : ℕ → ℕ → ℕ
webhook_backoff_ms draw attempt = min 3600000 (5000 * 2 ^ min attempt 8) + draw

-- How texts are read: a number of seconds that is not negative, rounded up to milliseconds, and a
-- date, of which those before the epoch are the epoch.
pub record Reading : Type 0 where
  pub milliseconds : String → Option ℕ
  pub date : String → Option ℕ

unfoldable pub date_delay : ℕ → Option ℕ → Option ℕ
date_delay now none = none
date_delay now (some date) = some (min 3600000 (date - now))

unfoldable pub read_delay : Reading → String → ℕ → Option ℕ → Option ℕ
unfolding date_delay
read_delay reading value now (some ms) = some (min 3600000 ms)
read_delay reading value now none = date_delay now (reading.date value)

unfoldable pub retry_after_ms : Reading → Option String → ℕ → Option ℕ
unfolding read_delay
retry_after_ms reading none now = none
retry_after_ms reading (some value) now =
    if value == "" then none else read_delay reading value now (reading.milliseconds value)

-- What the process brings to an attempt: the setting of the most attempts, the draw and the clock.
pub record Attempting : Type 0 where
  pub reading : Reading
  pub max_attempts : Option ℕ
  pub draw : ℕ
  pub now : ℕ

abbrev pub most_attempts : Attempting → ℕ
most_attempts p = bounded_integer p.max_attempts 8 1 20

abbrev pub or_backoff : ℕ → ℕ → Option ℕ → ℕ
or_backoff draw attempt none = webhook_backoff_ms draw attempt
or_backoff draw attempt (some delay) = delay

unfoldable pub next_webhook_attempt : Attempting → ℕ → Option String → Option ℕ
next_webhook_attempt p attempt_count retry_after =
    if leb (most_attempts p) (attempt_count + 1)
    then none
    else some
        (p.now + or_backoff p.draw (attempt_count + 1) (retry_after_ms p.reading retry_after p.now))

-- What came of the post.
pub data Posted : Type 0 where
  answered : (status : ℕ) → (retry_after : Option String) → Posted
  threw : (message : String) → Posted

-- The part of an outcome that is recorded.
pub record Outcome : Type 0 where
  pub success : Bool
  pub response_status : Option ℕ
  pub error : Option String
  pub retry_at : Option ℕ

abbrev is_ok : ℕ → Bool
is_ok status = leb 200 status && ltb status 300

abbrev is_retryable : ℕ → Bool
is_retryable status = status == 408 || status == 425 || status == 429 || leb 500 status

-- `error` prints the status of an answer.
unfoldable pub posted_outcome : (ℕ → String) → Attempting → ℕ → Posted → Outcome
posted_outcome http_error p attempt_count (answered status retry_after) =
    if is_ok status
    then record { success = true; response_status = some status; error = none; retry_at = none }
    else record {
      success = false;
      response_status = some status;
      error = some (http_error status);
      retry_at =
          if is_retryable status then next_webhook_attempt p attempt_count retry_after else none;
    }
posted_outcome http_error p attempt_count (threw message) = record {
  success = false;
  response_status = none;
  error = some message;
  retry_at = next_webhook_attempt p attempt_count none;
}

disabled_outcome : Outcome
disabled_outcome = record {
  success = false;
  response_status = none;
  error = some "Endpoint disabled or missing";
  retry_at = none;
}

-- What is recorded of a delivery, by its endpoint.
unfoldable pub delivery_outcome :
    (ℕ → String) → Attempting → DeliveryRow → Option WebhookEndpointRecord → Posted → Outcome
unfolding disabled_outcome
delivery_outcome http_error p d none posted = disabled_outcome
delivery_outcome http_error p d (some endpoint) posted =
    if endpoint.enabled
    then posted_outcome http_error p d.attempt_count posted
    else disabled_outcome

abbrev pub completion : DeliveryRow → Outcome → CompleteInput
completion d o = record {
  id = d.id;
  lease_owner = if truthy d.lease_owner then d.lease_owner else none;
  success = o.success;
  response_status = o.response_status;
  error = o.error;
  retry_at = o.retry_at;
}

-- The table after the attempt.
unfoldable pub deliver_webhook :
    (ℕ → String)
    → Attempting
    → List WebhookEndpointRecord
    → Posted
    → DeliveryRow
    → ℕ
    → List DeliveryRow
    → List DeliveryRow
deliver_webhook http_error p endpoints posted d at table =
    let endpoint = get_webhook_endpoint d.project_id d.endpoint_id endpoints in
    complete_webhook_delivery (completion d (delivery_outcome http_error p d endpoint posted)) at
      table
