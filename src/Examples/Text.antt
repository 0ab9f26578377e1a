-- ===== src/Examples/Text.antt =====
-- Block numbers, policies, conflict evidence and expected Cells at concrete inputs.
use cell_flow.Prelude.{
  ℕ, ◌+◌, ◌≤◌, ◌≡◌, ◌↔◌, ◌++◌, refl, true, false, List, [], ◌∷◌, Option, some, none, String,
  get_elem?, arith,
}
use cell_flow.Prelude.Digits.{codes, to_digits}
use cell_flow.Json.{Json, get}
use cell_flow.Core.Status.{ChainStatus}
use cell_flow.Core.Types.{ConfirmationPolicy}
use cell_flow.Core.Errors.{ok}
use cell_flow.Core.Confirmation.{
  parse_hex_codes, parse_hex_block_number, parse_policy_codes, parse_confirmation_policy,
  confirmation_depth, is_confirmation_satisfied,
}
use cell_flow.Core.Confirmation.Depth.{to_hex, parse_hex_codes-to_hex, depth_reached}
use cell_flow.Core.Conflict.{
  ConflictInputInspection, continues, required_blocks, conflict_observation_matured,
  next_spent_observation_details, next_spent_observation_fields, next_count,
}
use cell_flow.Core.Conflict.Maturity.{observe_spends, matured_run_deep}
use cell_flow.Assertions.{
  RpcCellOutput, RpcTransaction, RpcLiveCell, LiveData, Mode, TypeAssertion, ExpectedCellAssertion,
  verify_cell_output,
}
use cell_flow.Assertions.Checks.{CellMatches}
use cell_flow.Assertions.Coverage.{SaysSomething}
use cell_flow.Assertions.Matching.{verify_cell_output_iff}

parse_hex_codes-to_hex_example : parse_hex_codes (to_hex 4096) ≡ some 4096
parse_hex_codes-to_hex_example = parse_hex_codes-to_hex 4096

depth_reached_example :
    (is_confirmation_satisfied
        (ConfirmationPolicy.depth 2)
        ChainStatus.committed
        (confirmation_depth (some 16) (some 17))
      ≡ true)
    ↔ (16 + 2 ≤ 17 + 1)
depth_reached_example = depth_reached 2 16 17 (omega arith) (omega arith)

policy_parsed : parse_confirmation_policy (some "depth:12") ≡ ok (ConfirmationPolicy.depth 12)
unfolding parse_confirmation_policy parse_policy_codes cell_flow.Prelude.Digits.read_digits
    cell_flow.Prelude.Digits.decimal_value
policy_parsed = refl

abbrev spent_at : String → ConflictInputInspection
spent_at tip = record { observed_at = "noon"; tip_block_number = some tip; inputs = Json.null }

nothing_in_progress : continues Json.null ≡ false
unfolding continues get
nothing_in_progress = refl

run_matured :
    conflict_observation_matured
      (ConfirmationPolicy.depth 2)
      (observe_spends Json.null (spent_at "0x10" ∷ spent_at "0x11" ∷ []))
      (spent_at "0x12")
    ≡ true
unfolding conflict_observation_matured observe_spends next_spent_observation_details
    next_spent_observation_fields next_count continues required_blocks parse_hex_block_number
    parse_hex_codes get cell_flow.Prelude.Digits.read_digits cell_flow.Prelude.Digits.hex_value
run_matured = refl

matured_run_deep_example :
    (from : ℕ) × (now : ℕ) × (parse_hex_block_number (some "0x10") ≡ some from)
    × (parse_hex_block_number (some "0x12") ≡ some now)
    × (from + required_blocks (ConfirmationPolicy.depth 2) ≤ now)
matured_run_deep_example =
    matured_run_deep (ConfirmationPolicy.depth 2) Json.null (spent_at "0x10") (spent_at "0x11" ∷ [])
      (spent_at "0x12") "0x10" nothing_in_progress refl run_matured

abbrev cell : RpcCellOutput
cell = record {
  capacity = "0x10";
  lock = record { code_hash = "0xcc"; hash_type = "type"; args = "0x" };
  type_script = none;
}

abbrev pub wanted : ExpectedCellAssertion
wanted = record {
  output_index = 0;
  mode = none;
  capacity = some "0x010";
  lock = none;
  type_script = TypeAssertion.must_be_null;
  expected_data = some "0xAB";
}

verify_cell_output_iff_example :
    ((verify_cell_output (some cell) (some "0xab") wanted Mode.created).ok ≡ true) ↔ (
      (c : RpcCellOutput) × (some cell ≡ some c)
      × SaysSomething wanted
      × CellMatches c (some "0xab") wanted)
verify_cell_output_iff_example =
    verify_cell_output_iff (some cell) (some "0xab") wanted Mode.created

abbrev pub paying : RpcTransaction
paying = record { outputs = cell ∷ []; outputs_data = "0xab" ∷ [] }

abbrev pub held : RpcLiveCell
held = record {
  status = "live";
  block_hash = none;
  cell = some (record { output = cell; cell_data = some (LiveData.plain "0xab") });
}
