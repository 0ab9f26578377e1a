-- ===== src/Prelude/Digits.antt =====
-- Numerals in a base: `BigInt(text)` and `Number(text)` on digits, and `toString(base)`.
use Prim.Native.Nat.{ℕ, zero, suc, ◌+◌, ◌*◌, ◌/◌, ◌%◌, ◌-◌, ◌<◌}
use Prim.Native.Char.{code}
use Prim.Native.String.{String}
use mathlib.Core.Path.{◌≡◌, ◌∙◌, ap}
use mathlib.Core.Bool.{true, false, ◌&&◌}
use mathlib.Core.Option.{Option, none, some}
use mathlib.Core.List.{List, [], ◌∷◌}
use native.Mathlib.Omega.{arith}
use cell_flow.Prelude.Tests.{ltb, leb, nat_beq, if◌then◌else◌, Bool-cases}
use mathlib.Core.Logic.{◌≢◌, inl, inr}

-- The code units of a text.
abbrev pub codes : String → List ℕ
codes String.[] = []
codes (String.◌∷◌ c s) = code c ∷ codes s

-- The value of a hexadecimal digit of either case.
unfoldable pub hex_value : ℕ → Option ℕ
hex_value c =
    if leb b'0' c && leb c b'9'
    then some (c - 48)
    else if leb b'a' c && leb c b'f'
    then some (c - 87)
    else if leb b'A' c && leb c b'F'
    then some (c - 55)
    else none

unfoldable pub decimal_value : ℕ → Option ℕ
decimal_value c = if leb b'0' c && leb c b'9' then some (c - 48) else none

-- The digit that `toString` writes.
unfoldable pub digit : ℕ → ℕ
digit d = if ltb d 10 then 48 + d else 87 + d

pub hex_value-digit : (d : ℕ) → d < 16 → hex_value (digit d) ≡ some d
unfolding hex_value digit
hex_value-digit d h = ground arith

pub decimal_value-digit : (d : ℕ) → d < 10 → decimal_value (digit d) ≡ some d
unfolding decimal_value digit
decimal_value-digit d h = ground arith

module _ (base : ℕ) where
  -- All of the text must be digits.
  unfoldable pub read_digits : (ℕ → Option ℕ) → ℕ → List ℕ → Option ℕ
  read_digits value acc [] = some acc
  read_digits value acc (c ∷ cs) = elim (value c) [
    | none ↦ none
    | some d ↦ read_digits value (acc * base + d) cs
  ]

  unfoldable pub write_digits : ℕ → ℕ → List ℕ → List ℕ
  write_digits zero n out = out
  write_digits (suc fuel) n out =
      let rest = write_digits fuel (n / base) (digit (n % base) ∷ out) in
      if nat_beq (n / base) 0 then digit n ∷ out else rest

-- The digits of a number: `n + 1` rounds are enough.
unfoldable pub to_digits : ℕ → ℕ → List ℕ
unfolding write_digits
to_digits base n = write_digits base (suc n) n []

module _ (base : ℕ) (value : ℕ → Option ℕ) (large : 1 < base)
    (reads : (d : ℕ) → d < base → value (digit d) ≡ some d) where
  read_digit :
      (acc d : ℕ) (out : List ℕ)
      → d < base
      → read_digits base value acc (digit d ∷ out) ≡ read_digits base value (acc * base + d) out
  unfolding read_digits
  read_digit acc d out h = rw (reads d h, read_digits)

  div-lt : (n : ℕ) → n / base ≢ 0 → n / base < n
  div-lt n h = grind arith

  small : (n : ℕ) → nat_beq (n / base) 0 ≡ true → n < base
  small n e = grind arith

  shrinks : (fuel n : ℕ) → n < suc fuel → nat_beq (n / base) 0 ≡ false → n / base < fuel
  shrinks fuel n h e = ground (arith, div-lt n)

  mod-lt_base : (n : ℕ) → n % base < base
  mod-lt_base n = grind arith

  div-mul-add-mod : (n : ℕ) → n / base * base + n % base ≡ n
  div-mul-add-mod n = grind arith

  read-write_digits :
      (fuel n : ℕ) (out : List ℕ)
      → n < fuel
      → read_digits base value 0 (write_digits base fuel n out) ≡ read_digits base value n out
  unfolding write_digits
  read-write_digits zero n out h = elim h [ ]
  read-write_digits (suc fuel) n out h = elim (Bool-cases (nat_beq (n / base) 0)) [
    | inl e ↦
        rw (e)
          (read_digit 0 n out (small n e) ∙ ap (λ k. read_digits base value k out) (omega arith))
    | inr e ↦ rw (e) (
        read-write_digits fuel (n / base) (digit (n % base) ∷ out) (shrinks fuel n h e)
        ∙ read_digit (n / base) (n % base) out (mod-lt_base n)
        ∙ ap (λ k. read_digits base value k out) (div-mul-add-mod n))
  ]

  pub read-to_digits : (n : ℕ) → read_digits base value 0 (to_digits base n) ≡ some n
  unfolding to_digits read_digits
  read-to_digits n = read-write_digits (suc n) n [] (omega arith)

abbrev pub IsNonEmpty : List ℕ → Type 0
IsNonEmpty [] = ⊥
IsNonEmpty (c ∷ cs) = Unit

write_digits-IsNonEmpty :
    (base fuel n : ℕ) (out : List ℕ) → IsNonEmpty out → IsNonEmpty (write_digits base fuel n out)
unfolding write_digits
write_digits-IsNonEmpty base zero n out h = h
write_digits-IsNonEmpty base (suc fuel) n out h = elim (Bool-cases (nat_beq (n / base) 0)) [
  | inl e ↦ rw e tt
  | inr e ↦ rw e (write_digits-IsNonEmpty base fuel (n / base) (digit (n % base) ∷ out) tt)
]

pub to_digits-IsNonEmpty : (base n : ℕ) → IsNonEmpty (to_digits base n)
unfolding to_digits
to_digits-IsNonEmpty base n = elim (Bool-cases (nat_beq (n / base) 0)) [
  | inl e ↦ rw e tt
  | inr e ↦ rw e (write_digits-IsNonEmpty base n (n / base) (digit (n % base) ∷ []) tt)
]
