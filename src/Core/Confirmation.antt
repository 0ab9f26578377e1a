-- ===== src/Core/Confirmation.antt =====
-- packages/core/src/state-machine.ts: block numbers and confirmation depth, and
-- packages/core/src/confirmation.ts: the policy parsed from text.
pub mod Depth
pub mod Policy
use cell_flow.Prelude.{
  ℕ, ◌+◌, ◌-◌, ◌<◌, ◌≡◌, Bool, true, false, ◌&&◌, ◌||◌, List, [], ◌∷◌, Option, none, some, String,
  if◌then◌else◌, ltb, leb, nat_beq, ◌==◌, string_eq,
}
use cell_flow.Prelude.Digits.{codes, hex_value, decimal_value, read_digits}
use cell_flow.Core.Status.{ChainStatus, chain_eq}
use cell_flow.Core.Types.{ConfirmationPolicy}
use cell_flow.Core.Errors.{ErrorCode, Result, ok, err, failure}

-- `/^[0-9a-f]+$/i` and the number that it spells.
hex_number : List ℕ → Option ℕ
hex_number [] = none
hex_number (c ∷ cs) = read_digits 16 hex_value 0 (c ∷ cs)

-- `/^0x[0-9a-f]+$/i`, then `BigInt(value)`.
unfoldable pub parse_hex_codes : List ℕ → Option ℕ
unfolding hex_number
parse_hex_codes (z ∷ x ∷ cs) =
    if nat_beq z b'0' && (nat_beq x b'x' || nat_beq x b'X') then hex_number cs else none
parse_hex_codes _ = none

unfoldable pub parse_hex_block_number : Option String → Option ℕ
parse_hex_block_number none = none
parse_hex_block_number (some s) = parse_hex_codes (codes s)

-- `Number.MAX_SAFE_INTEGER`, 2 ^ 53 - 1.
abbrev pub max_safe_integer : ℕ
max_safe_integer = 9007199254740991

-- The count from the two heights, `committed` and `tip`.
unfoldable pub confirmation_depth : Option ℕ → Option ℕ → ℕ
confirmation_depth (some committed) (some tip) =
    if ltb tip committed
    then 0
    else let depth = tip - committed + 1 in
      if ltb max_safe_integer depth then max_safe_integer else depth
confirmation_depth _ _ = 0

unfoldable pub compute_confirmation_count : Option String → Option String → ℕ
compute_confirmation_count committed_block_number tip_block_number =
    confirmation_depth (parse_hex_block_number committed_block_number)
      (parse_hex_block_number tip_block_number)

policy_satisfied : ConfirmationPolicy → ℕ → Bool
policy_satisfied ConfirmationPolicy.at_commit count = true
policy_satisfied (ConfirmationPolicy.depth blocks) count = leb blocks count

unfoldable pub is_confirmation_satisfied : ConfirmationPolicy → ChainStatus → ℕ → Bool
unfolding policy_satisfied
is_confirmation_satisfied policy chain_status count =
    if chain_status == ChainStatus.committed then policy_satisfied policy count else false

-- The text after `depth:`, as `\d+`.
depth_digits : List ℕ → Option ℕ
depth_digits [] = none
depth_digits (c ∷ cs) = read_digits 10 decimal_value 0 (c ∷ cs)

-- `/^depth:(\d+)$/`.
match_depth : List ℕ → Option ℕ
unfolding depth_digits
match_depth (d ∷ e ∷ p ∷ t ∷ h ∷ c ∷ cs) =
    if nat_beq d b'd'
      && nat_beq e b'e'
      && nat_beq p b'p'
      && nat_beq t b't'
      && nat_beq h b'h'
      && nat_beq c b':'
    then depth_digits cs
    else none
match_depth _ = none

-- `Number.isSafeInteger(blocks)`, then the range.
depth_policy : Option ℕ → Result ConfirmationPolicy
depth_policy none = err (failure ErrorCode.internal_error 500)
depth_policy (some blocks) =
    if ltb max_safe_integer blocks || ltb blocks 1 || ltb 10000 blocks
    then err (failure ErrorCode.internal_error 500)
    else ok (ConfirmationPolicy.depth blocks)

-- On the code units of the text: the empty text and `committed` are the simple mode.
unfoldable pub parse_policy_codes : List ℕ → Result ConfirmationPolicy
unfolding match_depth depth_policy
parse_policy_codes cs = depth_policy (match_depth cs)

unfoldable pub parse_confirmation_policy : Option String → Result ConfirmationPolicy
parse_confirmation_policy none = ok ConfirmationPolicy.at_commit
parse_confirmation_policy (some s) =
    if s == "" || s == "committed"
    then ok ConfirmationPolicy.at_commit
    else parse_policy_codes (codes s)
