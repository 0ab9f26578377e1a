-- ===== src/Prelude/Letters.antt =====
-- `toLowerCase` for the letters A to Z, `trim` and concatenation, on whole texts.
use Prim.Native.Nat.{ℕ, zero, suc, ◌-◌}
use Prim.Native.Char.{Char, code}
use Prim.Native.String.{String}
use mathlib.Core.Path.{◌≡◌}
use mathlib.Core.Bool.{Bool, false, ◌&&◌, ◌||◌}
use cell_flow.Prelude.Tests.{leb, nat_beq, if◌then◌else◌, ◌==◌, string_eq}

-- The character at a place of a text, or the given one past its end.
pub char_or : ℕ → String → Char → Char
char_or n String.[] c = c
char_or zero (String.◌∷◌ d s) c = d
char_or (suc n) (String.◌∷◌ d s) c = char_or n s c

pub lower_char : Char → Char
unfolding char_or
lower_char c =
    if leb b'A' (code c) && leb (code c) b'Z'
    then char_or (code c - b'A') "abcdefghijklmnopqrstuvwxyz" c
    else c

unfoldable pub lower_text : String → String
unfolding lower_char
lower_text String.[] = String.[]
lower_text (String.◌∷◌ c s) = String.◌∷◌ (lower_char c) (lower_text s)

-- The white space and line ends of ECMAScript.
is_space : ℕ → Bool
is_space c =
    (leb 9 c && leb c 13)
    || nat_beq c 32
    || nat_beq c 160
    || nat_beq c 0x1680
    || (leb 0x2000 c && leb c 0x200a)
    || nat_beq c 0x2028
    || nat_beq c 0x2029
    || nat_beq c 0x202f
    || nat_beq c 0x205f
    || nat_beq c 0x3000
    || nat_beq c 0xfeff

trim_start : String → String
trim_start String.[] = String.[]
trim_start (String.◌∷◌ c s) =
    let rest = trim_start s in if is_space (code c) then rest else String.◌∷◌ c s

trim_end : String → String
trim_end String.[] = String.[]
trim_end (String.◌∷◌ c s) =
    let rest = trim_end s in
    if rest == "" && is_space (code c) then String.[] else String.◌∷◌ c rest

unfoldable pub trim : String → String
unfolding trim_start trim_end is_space
trim s = trim_start (trim_end s)

-- `${s}${t}`.
unfoldable pub text_append : String → String → String
text_append String.[] t = t
text_append (String.◌∷◌ c s) t = String.◌∷◌ c (text_append s t)

-- `text.slice(0, n)`.
unfoldable pub take_text : ℕ → String → String
take_text zero s = String.[]
take_text (suc n) String.[] = String.[]
take_text (suc n) (String.◌∷◌ c s) = String.◌∷◌ c (take_text n s)

-- A character outside the upper case stays.
pub lower_char_kept : (c : Char) → leb b'A' (code c) && leb (code c) b'Z' ≡ false → lower_char c ≡ c
unfolding lower_char
lower_char_kept c h = rw h
