-- ===== src/Store/Outbox.antt =====
-- packages/db/src/repository.ts: `webhookEventType` and `insertEventAndOutbox`, the ledger of
-- events and the deliveries to the project's webhooks. The texts of an event's statuses are the
-- caller's; the identifier of an event, which is random, is an argument.
use cell_flow.Prelude.{
  ℕ, Bool, ◌&&◌, List, [], ◌∷◌, Option, none, some, String, if◌then◌else◌, ◌==◌, string_eq, any,
  select, find,
}
use cell_flow.Prelude.Letters.{lower_text, text_append}
use cell_flow.Json.{Json}
use cell_flow.Core.Status.{SubmissionStatus, ChainStatus, WorkflowStatus, ConflictType}
use cell_flow.Core.Types.{ExecutionSnapshot}
use cell_flow.Core.Settlement.{is_settlement_ready}

-- A row of `state_events`; `raw_observation` is `null` where none is given.
pub record StateEvent : Type 0 where
  pub id : String
  pub project_id : String
  pub intent_row_id : String
  pub execution_id : String
  pub kind : String
  pub from_status : Option String
  pub to_status : String
  pub reason : Option String
  pub raw_observation : Json
  pub occurred_at : String

pub record WebhookEndpointRecord : Type 0 where
  pub id : String
  pub project_id : String
  pub url : String
  pub signing_secret_encrypted : String
  pub secret_version : ℕ
  pub enabled : Bool

-- The `payload` of a delivery with its `data`.
pub record WebhookPayload : Type 0 where
  pub id : String
  pub event_type : String
  pub occurred_at : String
  pub intent_id : String
  pub tx_hash : Option String
  pub status : String
  pub submission_status : SubmissionStatus
  pub chain_status : ChainStatus
  pub workflow_status : WorkflowStatus
  pub confirmation_count : ℕ
  pub assertion_status : Option String
  pub settlement_ready : Bool

-- A row of `webhook_deliveries` as it is inserted.
pub record WebhookDelivery : Type 0 where
  pub project_id : String
  pub endpoint_id : String
  pub event_id : String
  pub event_type : String
  pub payload : WebhookPayload

pub record Ledger : Type 0 where
  pub events : List StateEvent
  pub endpoints : List WebhookEndpointRecord
  pub deliveries : List WebhookDelivery

pub record EventInput : Type 0 where
  pub project_id : String
  pub intent_row_id : String
  pub execution_id : String
  pub intent_id : String
  pub tx_hash : Option String
  pub kind : String
  pub from_status : Option String
  pub to_status : String
  pub reason : Option String
  pub raw_observation : Option Json
  pub occurred_at : String
  pub snapshot : ExecutionSnapshot
  pub assertion_status : Option String
  pub required_assertion_count : ℕ
  pub conflict_type : Option ConflictType

unfoldable pub webhook_event_type : String → String → String
webhook_event_type kind status =
    if kind == "CREATED"
    then "intent.created"
    else if kind == "ASSERTION_VERIFIED"
    then "intent.assertion_verified"
    else if kind == "ASSERTION_FAILED"
    then "intent.assertion_failed"
    else if kind == "REORG_DETECTED"
    then "intent.reorged"
    else if kind == "SETTLEMENT_READY"
    then "intent.settlement_ready"
    else if kind == "SETTLEMENT_REVOKED"
    then "intent.settlement_revoked"
    else if kind == "CONFIRMED"
    then "intent.confirmed"
    else if kind == "OPERATOR_NOTE"
    then "intent.operator_note"
    else text_append "intent." (lower_text status)

abbrev json_or_null : Option Json → Json
json_or_null none = Json.null
json_or_null (some j) = j

event_row : String → EventInput → StateEvent
event_row event_id i = record {
  id = event_id;
  project_id = i.project_id;
  intent_row_id = i.intent_row_id;
  execution_id = i.execution_id;
  kind = i.kind;
  from_status = i.from_status;
  to_status = i.to_status;
  reason = i.reason;
  raw_observation = json_or_null i.raw_observation;
  occurred_at = i.occurred_at;
}

payload_of : String → EventInput → WebhookPayload
payload_of event_id i = record {
  id = event_id;
  event_type = webhook_event_type i.kind i.to_status;
  occurred_at = i.occurred_at;
  intent_id = i.intent_id;
  tx_hash = i.tx_hash;
  status = i.to_status;
  submission_status = i.snapshot.submission_status;
  chain_status = i.snapshot.chain_status;
  workflow_status = i.snapshot.workflow_status;
  confirmation_count = i.snapshot.confirmation_count;
  assertion_status = i.assertion_status;
  settlement_ready =
      is_settlement_ready i.snapshot i.assertion_status i.required_assertion_count i.conflict_type;
}

-- `on conflict (endpoint_id, event_id) do nothing`.
add_delivery : WebhookDelivery → List WebhookDelivery → List WebhookDelivery
add_delivery d ds =
    if any (λ e. e.endpoint_id == d.endpoint_id && e.event_id == d.event_id) ds then ds else d ∷ ds

add_deliveries :
    String → EventInput → List WebhookEndpointRecord → List WebhookDelivery → List WebhookDelivery
unfolding add_delivery payload_of
add_deliveries event_id i [] ds = ds
add_deliveries event_id i (w ∷ ws) ds =
    add_delivery
      (record {
        project_id = i.project_id;
        endpoint_id = w.id;
        event_id = event_id;
        event_type = webhook_event_type i.kind i.to_status;
        payload = payload_of event_id i;
      })
      (add_deliveries event_id i ws ds)

-- The newest event stands first.
unfoldable pub insert_event_and_outbox : String → EventInput → Ledger → Ledger
unfolding event_row add_deliveries
insert_event_and_outbox event_id i l = record l {
  events = event_row event_id i ∷ l.events;
  deliveries =
      add_deliveries event_id i
        (select (λ w. w.project_id == i.project_id && w.enabled) l.endpoints) l.deliveries;
}

-- `getWebhookEndpoint`.
unfoldable pub get_webhook_endpoint :
    String → String → List WebhookEndpointRecord → Option WebhookEndpointRecord
get_webhook_endpoint project id endpoints =
    find (λ e. e.project_id == project && e.id == id) endpoints
