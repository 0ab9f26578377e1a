-- ===== src/Examples/Reconciling.antt =====
-- workflows/reconcile at work: two endpoints, an intent that expects a Cell, an outage.
use cell_flow.Prelude.{
  ℕ, ◌+◌, ◌<◌, ◌≤◌, ◌≡◌, ◌⊎◌, ◌↔◌, refl, true, false, List, [], ◌∷◌, Option, some, none, String,
  All, Any, arith, length,
}
use cell_flow.Json.{Json}
use cell_flow.Core.Status.{InputRole, ConflictDomain}
use cell_flow.Core.Errors.{CellFlowError, ErrorCode, Result, ok, err, failure}
use cell_flow.Assertions.{
  RpcTransaction, ExpectedCellAssertion, verify_cell_output, verify_expected_cell, integer_hex_eq,
  hex_eq, assertion_has_checks,
}
use cell_flow.Rpc.Session.{RpcTransactionResult}
use cell_flow.Rpc.Inspect.{
  InputObservation, InputInspectionState, inspect_input_out_points, inspect_input, inspect_each,
  inspection_state, creator_canonical_evidence, CanonicalInputState, PoolInputState,
}
use cell_flow.Rpc.Observe.{assert_identity}
use cell_flow.Rpc.Client.{
  Circuit, Failures, Client, healthy_first, with_session, try_each, unavailable,
  inspect_input_out_points_at,
}
use cell_flow.Rpc.Client.Failover.{with_session-Answers, with_session_fails}
use cell_flow.Reconcile.Schedule.{ReverifyInput}
use cell_flow.Reconcile.Domain.{domain_of_inputs}
use cell_flow.Reconcile.Corroborate.{distinct, ask_each, corroborate_canonical_spend}
use cell_flow.Reconcile.Corroborate.Endpoints.{Corroborates, spend_corroborated}
use cell_flow.Reconcile.Assess.{AssessmentStatus, assess_each, evaluate_assertions}
use cell_flow.Reconcile.Assess.Verdict.{Passed, verified_passes}
use cell_flow.Reconcile.Assess.Refutation.{Refuted, failed_refutes}
use cell_flow.Examples.Text.{wanted, paying}
use cell_flow.Examples.Node.{node, anywhere, input, spent_inspection}

abbrev pub client : Client
client = record {
  urls = "node" ∷ "other" ∷ [];
  session_at = λ u. node;
  info_at = λ u. ok Json.null;
  live_cell_at = λ u h i. ok none;
}

abbrev twice : Circuit
twice = record { threshold = 2; cooldown_ms = 30000 }

-- Both endpoints have failed twice.
abbrev cooling : Failures
cooling =
    record { url = "node"; failures = 2; cooldown_until = 90 }
    ∷ record { url = "other"; failures = 2; cooldown_until = 80 }
    ∷ []

with_session-Answers_example :
    (a : ℕ) × ((with_session twice 50 ("node" ∷ "other" ∷ []) (λ u. ok 7) cooling).0 ≡ ok a)
with_session-Answers_example =
    with_session-Answers twice 50 (λ u. ok 7) "node" ("other" ∷ []) cooling
      ((7, refl), ((7, refl), tt))

abbrev refuses : String → Result ℕ
refuses u = err (failure ErrorCode.internal_error 500)

all_refuse : (with_session twice 50 ("node" ∷ "other" ∷ []) refuses cooling).0 ≡ err unavailable
unfolding with_session try_each healthy_first cell_flow.Rpc.Client.cooldown_of
all_refuse = refl

with_session_fails_example :
    (unavailable ≡ unavailable)
    × (0 < length (healthy_first 50 cooling ("node" ∷ "other" ∷ [])))
    × All
        (λ v. (x : CellFlowError) × (refuses v ≡ err x))
        (healthy_first 50 cooling ("node" ∷ "other" ∷ []))
with_session_fails_example =
    with_session_fails twice 50 refuses "node" ("other" ∷ []) cooling unavailable all_refuse

abbrev same_block : ReverifyInput
same_block = record {
  previously_settled = true;
  previously_verified = true;
  prior_committed_block_hash = some "0xaa";
  current_committed_block_hash = some "0xaa";
  reorg_detected = false;
}

abbrev of_application : List InputObservation
of_application =
    record {
      input = record {
        out_point = record { tx_hash = "spent"; index = 0 };
        role = InputRole.application_state;
        resource_key = none;
      };
      canonical = CanonicalInputState.spent;
      pool_aware = PoolInputState.unknown;
      canonical_rpc_status = none;
      pool_rpc_status = none;
    }
    ∷ []

application_domain : domain_of_inputs of_application ≡ ConflictDomain.application
unfolding domain_of_inputs
application_domain = refl

both_see_the_spend :
    (corroborate_canonical_spend client "noon" spent_inspection
      ("node" ∷ "other" ∷ [])
      (input "spent" ∷ [])
      anywhere).confirmed
    ≡ true
unfolding corroborate_canonical_spend distinct ask_each inspect_input_out_points_at assert_identity
    inspect_input_out_points inspect_each inspect_input inspection_state creator_canonical_evidence
    cell_flow.Rpc.Session.normalize_hash cell_flow.Rpc.Session.header_number cell_flow.Json.get
    cell_flow.Prelude.Letters.lower_text cell_flow.Prelude.Letters.trim
both_see_the_spend = refl

spend_corroborated_example :
    ((2 ≤ length (distinct ("node" ∷ "other" ∷ [])))
      × Any
          (Corroborates
            (λ u. inspect_input_out_points_at client "noon" u (input "spent" ∷ []) anywhere)
            "node")
          ("node" ∷ "other" ∷ []))
    ⊎ ((length (distinct ("node" ∷ "other" ∷ [])) < 2)
        × (spent_inspection.state ≡ InputInspectionState.canonically_spent))
spend_corroborated_example =
    spend_corroborated client "noon" spent_inspection ("node" ∷ "other" ∷ []) (input "spent" ∷ [])
      anywhere both_see_the_spend

paying_passes :
    (evaluate_assertions client "node" "0x01" (some paying) (wanted ∷ [])).status
    ≡ AssessmentStatus.verified
unfolding evaluate_assertions assess_each cell_flow.Reconcile.Assess.assess_one verify_expected_cell
    verify_cell_output assertion_has_checks integer_hex_eq hex_eq
    cell_flow.Core.Confirmation.parse_hex_codes cell_flow.Prelude.Digits.read_digits
    cell_flow.Prelude.Digits.hex_value cell_flow.Prelude.Letters.lower_text
paying_passes = refl

verified_passes_example :
    (found : RpcTransaction) × (some paying ≡ some found)
    × All (Passed client "node" "0x01" found) (wanted ∷ [])
verified_passes_example =
    verified_passes client "node" "0x01" (some paying) (wanted ∷ []) paying_passes

abbrev other_data : ExpectedCellAssertion
other_data = record wanted { expected_data = some "0xcd" }

paying_refused :
    (evaluate_assertions client "node" "0x01" (some paying) (other_data ∷ [])).status
    ≡ AssessmentStatus.failed
unfolding evaluate_assertions assess_each cell_flow.Reconcile.Assess.assess_one verify_expected_cell
    verify_cell_output assertion_has_checks integer_hex_eq hex_eq
    cell_flow.Core.Confirmation.parse_hex_codes cell_flow.Prelude.Digits.read_digits
    cell_flow.Prelude.Digits.hex_value cell_flow.Prelude.Letters.lower_text
paying_refused = refl

failed_refutes_example :
    (found : RpcTransaction) × (some paying ≡ some found)
    × Any (Refuted client "node" "0x01" found) (other_data ∷ [])
failed_refutes_example =
    failed_refutes client "node" "0x01" (some paying) (other_data ∷ []) paying_refused
