-- ===== src/Reconcile/Contention.antt =====
-- workflows/reconcile/src/reconcile.ts: `contentionDetails` and the branch of an input that the
-- chain holds live and the pool does not.
use cell_flow.Prelude.{
  ℕ, ◌+◌, Bool, false, not, ◌&&◌, Option, none, some, String, if◌then◌else◌, string_eq, leb,
}
use cell_flow.Json.{
  Json, bool, num, text, obj, end, field, nullable_text, as_record, as_text, as_num, get, is_true,
  text_is,
}
use cell_flow.Core.Status.{ConflictType, submission_eq}
use cell_flow.Rpc.Inspect.{InputInspection}
use cell_flow.Reconcile.Domain.{DomainMode, input_conflict_domain}
use cell_flow.Store.Rows.{ExecutionRecord}
use cell_flow.Reconcile.Draft.{Context, Draft, domain_text}

-- `typeof value === "string" ? value : other`.
text_or : Option String → String → String
text_or none t = t
text_or (some s) t = s

num_or : Option ℕ → ℕ → ℕ
num_or none n = n
num_or (some m) n = m

same_contention : Json → Bool
same_contention prior = text_is (get "classification" (as_record prior)) "MEMPOOL_CONTENDED"

first_observed : Json → InputInspection → String
unfolding text_or same_contention
first_observed prior i =
    if same_contention prior
    then text_or (as_text (get "firstObservedAt" (as_record prior))) i.observed_at
    else i.observed_at

grace_of : Context → Json → ℕ
unfolding num_or same_contention
grace_of x prior =
    if same_contention prior
    then num_or (as_num (get "graceMs" (as_record prior))) x.grace_ms
    else x.grace_ms

-- The start of the grace; an observation's own time is always readable.
grace_start : Context → Json → InputInspection → ℕ
unfolding first_observed
grace_start x prior i =
    num_or (x.parse_ms (first_observed prior i)) (num_or (x.parse_ms i.observed_at) 0)

time_reached : Option ℕ → ℕ → Bool
time_reached none deadline = false
time_reached (some t) deadline = leb deadline t

unfoldable pub grace_expired : Context → Json → InputInspection → Bool
unfolding grace_start grace_of time_reached
grace_expired x prior i =
    time_reached (x.parse_ms i.observed_at) (grace_start x prior i + grace_of x prior)

unfoldable pub contention_details : Context → Json → InputInspection → Json
unfolding grace_start grace_of first_observed
contention_details x prior i = obj (
    field "source" (text "reconciliation") (
      field "classification" (text "MEMPOOL_CONTENDED") (
        field "canonicalSpendConfirmed" (bool false) (
          field "firstObservedAt" (text (first_observed prior i)) (
            field "lastObservedAt" (text i.observed_at) (
              field "observedAt" (text i.observed_at) (
                field "graceMs" (num (grace_of x prior)) (
                  field "graceExpiresAt"
                    (text (x.to_iso (grace_start x prior i + grace_of x prior)))
                    (field "graceExpired" (bool (grace_expired x prior i)) (
                      field "tipBlockNumber" (nullable_text i.tip_block_number) (
                        field "inputDomain"
                          (text (domain_text (input_conflict_domain i DomainMode.contended)))
                          (field "contendedInputs" (x.stored_inputs i.contended_inputs)
                            (field "inputs" (x.stored_inputs i.inputs) end)))))))))))))

unfoldable pub contended_draft : Context → ExecutionRecord → InputInspection → Draft → Draft
contended_draft x e i d =
    let just_expired =
      grace_expired x e.conflict_details i
      && not (is_true (get "graceExpired" (as_record e.conflict_details))) in
    record d {
      conflict_type = some ConflictType.input_conflict_suspected;
      conflict_details = contention_details x e.conflict_details i;
      event_kind =
          if just_expired
          then "INPUT_CONTENTION_GRACE_EXPIRED"
          else "INPUT_POOL_CONTENTION_DETECTED";
      reason = some (
          if just_expired
          then "The configured input-contention grace window expired; recovery is now selected from the semantic input role while reconciliation continues"
          else "Exact transaction is absent while an original input is live canonically but unavailable with tx-pool state");
    }
