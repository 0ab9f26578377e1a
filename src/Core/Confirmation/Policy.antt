-- ===== src/Core/Confirmation/Policy.antt =====
-- The depths that a policy text can give, and the text of every such depth.
use cell_flow.Prelude.{
  ℕ, ◌≤◌, ◌≡◌, ◌++◌, List, [], ◌∷◌, none, some, Option, arith, ◌∙◌, ap, refl, Bool-cases, ◌||◌,
  ◌==◌, string_eq, inl, inr, String,
}
use cell_flow.Prelude.Digits.{
  IsNonEmpty, to_digits-IsNonEmpty, read_digits, to_digits, decimal_value, decimal_value-digit,
  read-to_digits, codes,
}
use cell_flow.Core.Types.{ConfirmationPolicy}
use cell_flow.Core.Errors.{ok}
use cell_flow.Core.Confirmation.{
  depth_digits, match_depth, depth_policy, parse_policy_codes, parse_confirmation_policy,
}

depth_policy_bounds :
    (o : Option ℕ) (blocks : ℕ)
    → depth_policy o ≡ ok (ConfirmationPolicy.depth blocks)
    → (1 ≤ blocks) × (blocks ≤ 10000)
unfolding depth_policy
depth_policy_bounds none blocks h = ground arith
depth_policy_bounds (some n) blocks h = ground arith

depth_digits-eq :
    (cs : List ℕ) → IsNonEmpty cs → depth_digits cs ≡ read_digits 10 decimal_value 0 cs
unfolding depth_digits
depth_digits-eq [] h = absurd h
depth_digits-eq (c ∷ cs) h = refl

depth_policy_accepts :
    (blocks : ℕ)
    → 1 ≤ blocks
    → blocks ≤ 10000
    → depth_policy (some blocks) ≡ ok (ConfirmationPolicy.depth blocks)
unfolding depth_policy
depth_policy_accepts blocks h k = ground arith

-- Every depth that a policy text is parsed to lies between 1 and 10000.
pub parse_policy_bounds :
    (s : Option String) (blocks : ℕ)
    → parse_confirmation_policy s ≡ ok (ConfirmationPolicy.depth blocks)
    → (1 ≤ blocks) × (blocks ≤ 10000)
unfolding parse_confirmation_policy parse_policy_codes
parse_policy_bounds none blocks h = ground arith
parse_policy_bounds (some s) blocks h = elim (Bool-cases (s == "" || s == "committed")) [
  | inl e ↦ cc (rw e at h)
  | inr e ↦ depth_policy_bounds (match_depth (codes s)) blocks (rw e at h)
]

-- The text `depth:` followed by the decimal digits of a number from 1 to 10000 is parsed to the
-- policy of that depth.
pub parse_policy-print :
    (blocks : ℕ)
    → 1 ≤ blocks
    → blocks ≤ 10000
    → parse_policy_codes (codes "depth:" ++ to_digits 10 blocks)
      ≡ ok (ConfirmationPolicy.depth blocks)
unfolding parse_policy_codes
parse_policy-print blocks h k =
    ap depth_policy (
      depth_digits-eq (to_digits 10 blocks) (to_digits-IsNonEmpty 10 blocks)
      ∙ read-to_digits 10 decimal_value (omega arith) decimal_value-digit blocks)
    ∙ depth_policy_accepts blocks h k
