-- ===== src/Json.antt =====
-- The values that the source types as `unknown`: JSON documents, and the reads that the
-- source makes of them (`typeof`, `Array.isArray`, property access, object spread). Numbers are
-- the natural numbers, which are all that the program writes into its documents.
use cell_flow.Prelude.{
  ℕ, ◌≡◌, refl, Bool, true, false, not, ◌&&◌, nat_beq, Option, none, some, String, arith, eq_iff,
  if◌then◌else◌, ◌==◌, string_eq,
}

mutual
  pub data Json : Type 0 where
    null : Json
    bool : Bool → Json
    num : ℕ → Json
    text : String → Json
    arr : Items → Json
    obj : Fields → Json

  pub data Items : Type 0 where
    nil : Items
    cons : Json → Items → Items

  pub data Fields : Type 0 where
    end : Fields
    field : String → Json → Fields → Fields

-- `record[key]`; `none` is `undefined`.
unfoldable pub get : String → Fields → Option Json
get k end = none
get k (field j v fs) = if j == k then some v else get k fs

-- `{ ...record, [key]: value }`.
unfoldable pub put : String → Json → Fields → Fields
put k v end = field k v end
put k v (field j w fs) = if j == k then field k v fs else field j w (put k v fs)

pub get-put :
    (k j : String) (v : Json) (fs : Fields)
    → get j (put k v fs) ≡ (if k == j then some v else get j fs)
unfolding get put
get-put k j v end = refl
get-put k j v (field i w fs) = ground (arith, eq_iff k j, eq_iff i k, eq_iff i j, get-put k j v fs)

-- `value && typeof value === "object" && !Array.isArray(value) ? value : {}`.
abbrev pub as_record : Json → Fields
as_record (obj fs) = fs
as_record _ = end

-- `typeof value === "string" ? value : undefined`.
abbrev pub as_text : Option Json → Option String
as_text (some (text s)) = some s
as_text _ = none

-- `typeof value === "number" ? value : undefined`.
abbrev pub as_num : Option Json → Option ℕ
as_num (some (num n)) = some n
as_num _ = none

-- `value === "literal"`.
abbrev pub text_is : Option Json → String → Bool
text_is (some (text s)) t = s == t
text_is _ t = false

-- `value === true`.
abbrev pub is_true : Option Json → Bool
is_true (some (bool b)) = b
is_true _ = false

-- A text that may be `null`, as a document.
abbrev pub nullable_text : Option String → Json
nullable_text none = null
nullable_text (some s) = text s

-- A document that is stored as `null` where there is none.
abbrev pub or_null : Option Json → Json
or_null none = null
or_null (some j) = j

-- `left ?? right`.
abbrev pub nullish : Option Json → Json → Json
nullish none right = right
nullish (some null) right = right
nullish (some v) right = v

-- `JSON.stringify(a) === JSON.stringify(b)`.
mutual
  pub json_beq : Json → Json → Bool
  json_beq null null = true
  json_beq (bool a) (bool b) = if a then b else not b
  json_beq (num a) (num b) = nat_beq a b
  json_beq (text a) (text b) = a == b
  json_beq (arr xs) (arr ys) = items_beq xs ys
  json_beq (obj fs) (obj gs) = fields_beq fs gs
  json_beq _ _ = false

  pub items_beq : Items → Items → Bool
  items_beq nil nil = true
  items_beq (cons x xs) (cons y ys) = json_beq x y && items_beq xs ys
  items_beq _ _ = false

  pub fields_beq : Fields → Fields → Bool
  fields_beq end end = true
  fields_beq (field j v fs) (field k w gs) = j == k && (json_beq v w && fields_beq fs gs)
  fields_beq _ _ = false
