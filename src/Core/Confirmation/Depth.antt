-- ===== src/Core/Confirmation/Depth.antt =====
-- Block numbers read back, and the depth that the count measures.
use cell_flow.Prelude.{
  ℕ, ◌+◌, ◌≤◌, ◌≡◌, refl, ◌↔◌, true, List, [], ◌∷◌, Option, none, some, arith, ◌∙◌,
}
use cell_flow.Prelude.Digits.{
  IsNonEmpty, to_digits-IsNonEmpty, read_digits, to_digits, hex_value, hex_value-digit,
  read-to_digits,
}
use cell_flow.Core.Status.{ChainStatus}
use cell_flow.Core.Types.{ConfirmationPolicy}
use cell_flow.Core.Confirmation.{
  hex_number, parse_hex_codes, confirmation_depth, max_safe_integer, is_confirmation_satisfied,
}

-- `0x${value.toString(16)}`.
pub to_hex : ℕ → List ℕ
to_hex n = b'0' ∷ b'x' ∷ to_digits 16 n

hex_number-eq : (cs : List ℕ) → IsNonEmpty cs → hex_number cs ≡ read_digits 16 hex_value 0 cs
unfolding hex_number
hex_number-eq [] h = absurd h
hex_number-eq (c ∷ cs) h = refl

-- The block number that `toString(16)` spells behind `0x` is read back as the same number.
pub parse_hex_codes-to_hex : (n : ℕ) → parse_hex_codes (to_hex n) ≡ some n
unfolding parse_hex_codes to_hex
parse_hex_codes-to_hex n =
    hex_number-eq (to_digits 16 n) (to_digits-IsNonEmpty 16 n)
    ∙ read-to_digits 16 hex_value (omega arith) hex_value-digit n

-- Below the cap of the safe integers, a depth policy of at least one block is satisfied exactly
-- when the tip stands `blocks - 1` or more blocks above the committed block.
pub depth_reached :
    (blocks committed tip : ℕ)
    → 1 ≤ blocks
    → blocks ≤ max_safe_integer
    → (is_confirmation_satisfied
          (ConfirmationPolicy.depth blocks)
          ChainStatus.committed
          (confirmation_depth (some committed) (some tip))
        ≡ true)
      ↔ (committed + blocks ≤ tip + 1)
unfolding is_confirmation_satisfied confirmation_depth
depth_reached blocks committed tip h k = ground arith

-- A count is a safe integer, and it never falls while the tip rises.
pub depth_bounded_mono :
    (committed : Option ℕ) (low high : ℕ)
    → low ≤ high
    → (confirmation_depth committed (some high) ≤ max_safe_integer)
      × (confirmation_depth committed (some low) ≤ confirmation_depth committed (some high))
unfolding confirmation_depth
depth_bounded_mono none low high h = ground arith
depth_bounded_mono (some c) low high h = ground arith
