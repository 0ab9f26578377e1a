-- ===== src/Prelude/Hashes.antt =====
-- The regular expression of 32-byte hashes, `/^0x[0-9a-f]{64}$/`, on the code units of a text.
use Prim.Native.Nat.{ℕ}
use Prim.Native.Char.{Char, code}
use Prim.Native.String.{String}
use mathlib.Core.Path.{◌≡◌, refl}
use mathlib.Core.Bool.{Bool, true, false, ◌&&◌, ◌||◌}
use mathlib.Core.List.{List, ◌∷◌}
use native.Mathlib.Omega.{arith}
use cell_flow.Prelude.Tests.{leb, nat_beq}
use cell_flow.Prelude.Lists.{length, every}
use cell_flow.Prelude.Digits.{codes}
use cell_flow.Prelude.Letters.{lower_text, lower_char_kept}

unfoldable pub is_lower_hex : ℕ → Bool
is_lower_hex c = (leb b'0' c && leb c b'9') || (leb b'a' c && leb c b'f')

unfoldable pub is_hash : List ℕ → Bool
unfolding is_lower_hex
is_hash (z ∷ x ∷ cs) =
    nat_beq z b'0' && nat_beq x b'x' && nat_beq (length cs) 64 && every is_lower_hex cs
is_hash _ = false

is_lower_hex-not_upper : (c : ℕ) → is_lower_hex c ≡ true → leb b'A' c && leb c b'Z' ≡ false
unfolding is_lower_hex
is_lower_hex-not_upper c h = ground arith

lower_text-cons :
    (c : Char) (s : String)
    → leb b'A' (code c) && leb (code c) b'Z' ≡ false
    → lower_text s ≡ s
    → lower_text (String.◌∷◌ c s) ≡ String.◌∷◌ c s
unfolding lower_text
lower_text-cons c s h e = rw (lower_char_kept c h, e)

lower_text-hex : (s : String) → every is_lower_hex (codes s) ≡ true → lower_text s ≡ s
unfolding lower_text
lower_text-hex String.[] h = refl
lower_text-hex (String.◌∷◌ c s) h =
    lower_text-cons c s (is_lower_hex-not_upper (code c) (ground arith))
      (lower_text-hex s (ground arith))

-- A hash is in lower case.
pub lower_text-hash : (s : String) → is_hash (codes s) ≡ true → lower_text s ≡ s
unfolding is_hash lower_text
lower_text-hash String.[] h = refl
lower_text-hash (String.◌∷◌ z String.[]) h = cc
lower_text-hash (String.◌∷◌ z (String.◌∷◌ x s)) h =
    lower_text-cons z (String.◌∷◌ x s) (ground arith)
      (lower_text-cons x s (ground arith) (lower_text-hex s (ground arith)))
