-- ===== src/Examples/Node.antt =====
-- workflows/reconcile/src/rpc.ts at work: one node that holds a committed transaction, whose first
-- input is spent and whose second is live.
use cell_flow.Prelude.{
  ℕ, ◌≡◌, refl, Bool, true, false, List, [], ◌∷◌, Option, some, none, String, if◌then◌else◌, ◌==◌,
  Any, All, string_eq,
}
use cell_flow.Json.{Json, Fields}
use cell_flow.Core.Status.{InputRole}
use cell_flow.Core.Types.{InputRef, ObservedStatus}
use cell_flow.Core.Errors.{ok}
use cell_flow.Rpc.Session.{RpcStatus, RpcTransactionResult, Session, normalize_hash, header_number}
use cell_flow.Rpc.Inspect.{
  InputInspectionState, InputInspection, InputObservation, CanonicalInputState, PoolInputState,
  inspect_input_out_points, inspect_input, inspect_each, inspection_state,
  creator_canonical_evidence,
}
use cell_flow.Rpc.Inspect.Spend.{IsSpent, inspection-IsSpent}
use cell_flow.Rpc.Observe.{
  PriorCommit, RpcObservationBundle, Identity, canonical_verified, assert_identity, observe,
}
use cell_flow.Rpc.Observe.Evidence.{IsCanonical, observe-IsCanonical}
use cell_flow.Rpc.Observe.Disproof.{IsDisproved, observe-IsDisproved}

abbrev block : String
block = "0x00000000000000000000000000000000000000000000000000000000000000aa"

abbrev other_block : String
other_block = "0x00000000000000000000000000000000000000000000000000000000000000bb"

abbrev header : Json
header = Json.obj (Fields.field "number" (Json.text "0x10") Fields.end)

abbrev pub found : RpcTransactionResult
found = record {
  transaction = some (record {
    outputs =
        record {
          capacity = "0x1";
          lock = record { code_hash = "0xcc"; hash_type = "type"; args = "0x" };
          type_script = none;
        }
        ∷ [];
    outputs_data = [];
  });
  document = Json.null;
  tx_status =
      some (record { status = RpcStatus.committed; block_hash = some block; reason = none });
}

-- The Cells of the transaction `spent` are spent, and all others are live.
abbrev pub node : Session
node = record {
  url = "node";
  get_transaction = λ h. ok (some found);
  get_header = λ h. ok (some header);
  get_tip_header = ok header;
  get_block_hash = λ n. ok (some block);
  get_live_cell = λ o pool. ok (
      if o.tx_hash == "spent"
      then none
      else some (record { status = "live"; block_hash = none; cell = none }));
}

abbrev pub anywhere : Identity
anywhere = record { chain = none; genesis_hash = none }

abbrev prior : PriorCommit
prior = record { block_hash = other_block; block_number = "0x10" }

abbrev pub observed : RpcObservationBundle
observed = record {
  observation = record {
    status = ObservedStatus.committed;
    observed_at = "noon";
    block_hash = some block;
    block_number = some "0x10";
    tip_block_number = some "0x10";
    rejection_reason = none;
    rpc_endpoint = some "node";
    canonical_block_hash = some block;
    prior_commit_canonical = some false;
  };
  rpc_result = some found;
  endpoint = "node";
  input_inspection = none;
}

observe_run : observe node (ok Json.null) anywhere "noon" "tx" (some prior) [] ≡ ok observed
unfolding observe assert_identity canonical_verified normalize_hash header_number cell_flow.Json.get
    cell_flow.Prelude.Letters.lower_text cell_flow.Prelude.Letters.trim
    cell_flow.Core.Confirmation.parse_hex_block_number cell_flow.Core.Confirmation.parse_hex_codes
    cell_flow.Prelude.Digits.read_digits cell_flow.Prelude.Digits.hex_value
observe_run = refl

observe-IsCanonical_example : IsCanonical node observed.observation
observe-IsCanonical_example =
    observe-IsCanonical node (ok Json.null) anywhere "noon" "tx" (some prior) [] observed
      observe_run refl

observe-IsDisproved_example : IsDisproved node (some prior)
observe-IsDisproved_example =
    observe-IsDisproved node (ok Json.null) anywhere "noon" "tx" (some prior) [] observed
      observe_run refl

abbrev pub input : String → InputRef
input h = record {
  out_point = record { tx_hash = h; index = 0 };
  role = InputRole.fee;
  resource_key = none;
}

abbrev spent_observation : InputObservation
spent_observation = record {
  input = input "spent";
  canonical = CanonicalInputState.spent;
  pool_aware = PoolInputState.unknown;
  canonical_rpc_status = none;
  pool_rpc_status = none;
}

abbrev pub spent_inspection : InputInspection
spent_inspection = record {
  state = InputInspectionState.canonically_spent;
  inputs = spent_observation ∷ [];
  spent_inputs = spent_observation ∷ [];
  contended_inputs = [];
  unknown_inputs = [];
  endpoint = "node";
  observed_at = "noon";
  tip_block_number = some "0x10";
}

inspect_spent : inspect_input_out_points node "noon" (input "spent" ∷ []) ≡ ok spent_inspection
unfolding inspect_input_out_points inspect_each inspect_input inspection_state
    creator_canonical_evidence normalize_hash header_number cell_flow.Json.get
    cell_flow.Prelude.Letters.lower_text cell_flow.Prelude.Letters.trim
inspect_spent = refl

inspection-IsSpent_example : Any (IsSpent node) (input "spent" ∷ [])
inspection-IsSpent_example =
    inspection-IsSpent node "noon" (input "spent" ∷ []) spent_inspection inspect_spent refl

abbrev live_observation : InputObservation
live_observation = record {
  input = input "held";
  canonical = CanonicalInputState.live;
  pool_aware = PoolInputState.available;
  canonical_rpc_status = some "live";
  pool_rpc_status = some "live";
}

abbrev live_inspection : InputInspection
live_inspection = record {
  state = InputInspectionState.all_live;
  inputs = live_observation ∷ [];
  spent_inputs = [];
  contended_inputs = [];
  unknown_inputs = [];
  endpoint = "node";
  observed_at = "noon";
  tip_block_number = some "0x10";
}

inspect_live_input : inspect_input_out_points node "noon" (input "held" ∷ []) ≡ ok live_inspection
unfolding inspect_input_out_points inspect_each inspect_input inspection_state header_number
    cell_flow.Json.get cell_flow.Prelude.Letters.lower_text cell_flow.Prelude.Letters.trim
inspect_live_input = refl
