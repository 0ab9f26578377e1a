-- ===== src/Core/Conflict.antt =====
-- packages/core/src/conflict-evidence.ts: the evidence that an input of the transaction is spent
-- by another one, kept in the conflict details from one observation to the next.
pub mod Maturity
use cell_flow.Prelude.{
  ℕ, ◌+◌, Bool, true, false, not, ◌&&◌, ◌||◌, Option, none, some, String, if◌then◌else◌, ltb, leb,
  max,
}
use cell_flow.Json.{
  Json, Fields, end, field, obj, text, bool, num, as_record, as_text, as_num, get, put, is_true,
  text_is, nullable_text, nullish,
}
use cell_flow.Core.Types.{ConfirmationPolicy}
use cell_flow.Core.Confirmation.{parse_hex_block_number}

pub record ConflictInputInspection : Type 0 where
  pub observed_at : String
  pub tip_block_number : Option String
  pub inputs : Json

-- The observation in the details counts, and nothing has interrupted it.
unfoldable pub continues : Json → Bool
continues details =
    text_is (get "classification" (as_record details)) "INPUT_SPENT_OBSERVED"
    && not (is_true (get "continuityBroken" (as_record details)))

unfoldable pub required_blocks : ConfirmationPolicy → ℕ
required_blocks ConfirmationPolicy.at_commit = 1
required_blocks (ConfirmationPolicy.depth blocks) = max blocks 1

abbrev count_or_one : Option ℕ → ℕ
count_or_one none = 1
count_or_one (some n) = n

-- The tests on the three heights and the count.
matured_at : ConfirmationPolicy → Option ℕ → Option ℕ → Option ℕ → ℕ → Bool
unfolding required_blocks
matured_at policy (some first) (some last) (some current) count =
    if leb current last
    then false
    else if ltb count 1
    then false
    else leb (first + required_blocks policy) current
matured_at policy _ _ _ count = false

tip_in : String → Json → Option ℕ
tip_in key details = parse_hex_block_number (as_text (get key (as_record details)))

unfoldable pub conflict_observation_matured :
    ConfirmationPolicy → Json → ConflictInputInspection → Bool
unfolding tip_in matured_at
conflict_observation_matured policy details i =
    if not (continues details)
    then false
    else matured_at policy (tip_in "firstObservedTipBlockNumber" details)
        (tip_in "lastObservedTipBlockNumber" details) (parse_hex_block_number i.tip_block_number)
        (count_or_one (as_num (get "spentObservationCount" (as_record details))))

-- `previousTip === undefined || currentTip === undefined || currentTip > previousTip`.
distinct_tips : Option ℕ → Option ℕ → Bool
distinct_tips (some previous) (some current) = ltb previous current
distinct_tips _ _ = true

unfoldable pub next_count : Json → ConflictInputInspection → ℕ
unfolding distinct_tips tip_in
next_count details i =
    if continues details
    then max 1 (count_or_one (as_num (get "spentObservationCount" (as_record details))))
      + (if distinct_tips (tip_in "lastObservedTipBlockNumber" details)
            (parse_hex_block_number i.tip_block_number)
          then 1
          else 0)
    else 1

-- `continues ? prior[key] ?? value : value`.
carried : Json → String → Json → Json
carried details key value =
    if continues details then nullish (get key (as_record details)) value else value

unfoldable pub next_spent_observation_fields : Json → ConflictInputInspection → Fields
unfolding carried
next_spent_observation_fields details i = field "source" (text "reconciliation") (
    field "classification" (text "INPUT_SPENT_OBSERVED") (
      field "canonicalSpendConfirmed" (bool false) (
        field "continuityBroken" (bool false) (
          field "firstObservedAt" (carried details "firstObservedAt" (text i.observed_at)) (
            field "firstObservedTipBlockNumber"
              (carried details "firstObservedTipBlockNumber" (nullable_text i.tip_block_number))
              (field "lastObservedAt" (text i.observed_at) (
                field "lastObservedTipBlockNumber" (nullable_text i.tip_block_number) (
                  field "spentObservationCount" (num (next_count details i))
                    (field "inputs" i.inputs end)))))))))

unfoldable pub next_spent_observation_details : Json → ConflictInputInspection → Json
unfolding next_spent_observation_fields
next_spent_observation_details details i = obj (next_spent_observation_fields details i)

unfoldable pub break_spend_observation_continuity : Json → String → String → Json
break_spend_observation_continuity details observed_at reason =
    if not (text_is (get "classification" (as_record details)) "INPUT_SPENT_OBSERVED")
    then details
    else obj (
        put "continuityBreakReason" (text reason) (
          put "continuityBrokenAt" (text observed_at)
            (put "continuityBroken" (bool true) (as_record details))))
