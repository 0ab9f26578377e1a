-- ===== src/Reconcile/Spend.antt =====
-- workflows/reconcile/src/reconcile.ts: the branch of an input that is spent on the chain.
use cell_flow.Prelude.{true, some, if◌then◌else◌, string_eq, ltb}
use cell_flow.Json.{Json, Fields, bool, text, obj, nullable_text, put}
use cell_flow.Core.Status.{WorkflowStatus, ConflictType, submission_eq}
use cell_flow.Core.Errors.{Result, ok, ◌>>=◌}
use cell_flow.Core.Observation.{set_workflow_status}
use cell_flow.Core.Conflict.{
  ConflictInputInspection, conflict_observation_matured, next_spent_observation_fields,
}
use cell_flow.Rpc.Inspect.{InputInspection}
use cell_flow.Reconcile.Domain.{DomainMode, input_conflict_domain}
use cell_flow.Reconcile.Corroborate.{Corroboration, corroborate_canonical_spend}
use cell_flow.Store.Rows.{ExecutionRecord}
use cell_flow.Reconcile.Draft.{Context, Draft, domain_text}

-- The part of an inspection that the conflict evidence reads.
abbrev pub evidence_of : Context → InputInspection → ConflictInputInspection
evidence_of x i = record {
  observed_at = i.observed_at;
  tip_block_number = i.tip_block_number;
  inputs = x.stored_inputs i.inputs;
}

-- The details that each branch of a spent input starts from.
spent_fields : Context → ExecutionRecord → InputInspection → Fields
spent_fields x e i = put "spentInputs" (x.stored_inputs i.spent_inputs) (
    put "inputDomain" (text (domain_text (input_conflict_domain i DomainMode.spent)))
      (next_spent_observation_fields e.conflict_details (evidence_of x i)))

confirmed_details : Context → ExecutionRecord → InputInspection → Corroboration → Json
unfolding spent_fields
confirmed_details x e i c = obj (
    put "corroboration" (x.stored_corroboration c) (
      put "confirmationPolicy" (x.stored_policy e.confirmation_policy) (
        put "confirmedTipBlockNumber" (nullable_text i.tip_block_number) (
          put "confirmedAt" (text i.observed_at) (
            put "canonicalSpendConfirmed" (bool true)
              (put "classification" (text "INPUT_SPENT") (spent_fields x e i)))))))

confirmed_draft : Context → ExecutionRecord → InputInspection → Corroboration → Draft → Result Draft
unfolding confirmed_details
confirmed_draft x e i c d = do
  s ← set_workflow_status d.snapshot WorkflowStatus.conflicted
  ok (record d {
    snapshot = s;
    conflict_type = some ConflictType.input_spent;
    conflict_details = confirmed_details x e i c;
    event_kind = "INPUT_CONFLICT_CONFIRMED";
    reason = some (
        if ltb 1 c.required_endpoints
        then "Original input remained canonically spent through the recheck window and a second configured RPC corroborated the terminal conflict"
        else "Original input remained canonically spent through the recheck window; only one trusted RPC endpoint is configured");
  })

pending_draft : Context → ExecutionRecord → InputInspection → Corroboration → Draft → Draft
unfolding spent_fields
pending_draft x e i c d = record d {
  conflict_type = some ConflictType.input_conflict_suspected;
  conflict_details = obj (put "corroboration" (x.stored_corroboration c) (spent_fields x e i));
  event_kind = "INPUT_CONFLICT_CORROBORATION_PENDING";
  reason =
      some
        "Primary RPC indicates canonical spend, but a second configured RPC has not corroborated the terminal conflict";
}

observed_draft : Context → ExecutionRecord → InputInspection → Draft → Draft
unfolding spent_fields
observed_draft x e i d = record d {
  conflict_type = some ConflictType.input_conflict_suspected;
  conflict_details = obj (spent_fields x e i);
  event_kind = "INPUT_SPENT_OBSERVED";
  reason =
      some
        "Original input is no longer live while its creator transaction remains canonical; waiting for repeated canonical spend evidence before confirming conflict";
}

-- What the other endpoints say of the inspection.
abbrev pub corroboration : Context → InputInspection → Corroboration
corroboration x i = corroborate_canonical_spend x.client x.now i x.endpoints x.inputs x.identity

unfoldable pub spent_draft : Context → ExecutionRecord → InputInspection → Draft → Result Draft
unfolding confirmed_draft pending_draft observed_draft
spent_draft x e i d =
    if conflict_observation_matured e.confirmation_policy e.conflict_details (evidence_of x i)
    then if (corroboration x i).confirmed
      then confirmed_draft x e i (corroboration x i) d
      else ok (pending_draft x e i (corroboration x i) d)
    else ok (observed_draft x e i d)
