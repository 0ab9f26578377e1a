-- ===== src/Core/Validation.antt =====
-- packages/core/src/validation.ts: the normal forms of hashes, intent identifiers and inputs. An
-- index is a natural number here, so it is an integer and not negative.
pub mod Idempotence
use cell_flow.Prelude.{
  ℕ, ◌^◌, ◌-◌, Bool, true, false, not, ◌&&◌, ◌||◌, List, [], ◌∷◌, Option, none, some, String,
  if◌then◌else◌, leb, ltb, nat_beq, length, every, ◌==◌, string_eq,
}
use cell_flow.Prelude.Digits.{codes}
use cell_flow.Prelude.Hashes.{is_hash}
use cell_flow.Prelude.Letters.{lower_text, trim, take_text}
use cell_flow.Core.Types.{OutPointRef, InputRef}
use cell_flow.Core.Errors.{ErrorCode, Result, ok, err, failure, throw_if, ◌>>=◌, ◌>>◌}

unfoldable pub normalize_tx_hash : String → Result String
unfolding is_hash
normalize_tx_hash value =
    let normalized = lower_text value in
    if is_hash (codes normalized)
    then ok normalized
    else err (failure ErrorCode.invalid_tx_hash 400)

is_alphanumeric : ℕ → Bool
is_alphanumeric c =
    (leb b'A' c && leb c b'Z') || (leb b'a' c && leb c b'z') || (leb b'0' c && leb c b'9')

-- `[A-Za-z0-9._:-]`.
is_id_char : ℕ → Bool
unfolding is_alphanumeric
is_id_char c =
    is_alphanumeric c || nat_beq c b'.' || nat_beq c b'_' || nat_beq c b':' || nat_beq c b'-'

-- `/^[A-Za-z0-9][A-Za-z0-9._:-]{0,127}$/`.
is_intent_id : List ℕ → Bool
unfolding is_id_char
is_intent_id [] = false
is_intent_id (c ∷ cs) = is_alphanumeric c && leb (length cs) 127 && every is_id_char cs

unfoldable pub normalize_intent_id : String → Result String
unfolding is_intent_id
normalize_intent_id value =
    let normalized = trim value in
    if is_intent_id (codes normalized)
    then ok normalized
    else err (failure ErrorCode.intent_conflict 400)

unfoldable pub normalize_out_point_index : ℕ → Result ℕ
normalize_out_point_index n =
    if ltb 0xffffffff n then err (failure ErrorCode.invalid_signed_transaction 400) else ok n

unfoldable pub normalize_out_point_ref : OutPointRef → Result OutPointRef
unfolding normalize_tx_hash normalize_out_point_index
normalize_out_point_ref p = do
  hash ← normalize_tx_hash p.tx_hash
  index ← normalize_out_point_index p.index
  ok (record { tx_hash = hash; index = index })

-- `values.map(f)`, where `f` may throw.
unfoldable pub map_result {ℓ κ} :
    {A : Type ℓ} {B : Type κ} → (A → Result B) → List A → Result (List B)
map_result f [] = ok []
map_result f (a ∷ as') = f a >>= λ b. map_result f as' >>= λ bs. ok (b ∷ bs)

unfoldable pub normalize_out_point_refs : List OutPointRef → Result (List OutPointRef)
normalize_out_point_refs values = do
  throw_if (ltb 1024 (length values)) (failure ErrorCode.invalid_signed_transaction 400)
  map_result normalize_out_point_ref values

-- `key?.trim()`, of which 256 characters are kept if any are left.
trimmed_key : Option String → Option String
trimmed_key none = none
trimmed_key (some key) = if trim key == "" then none else some (take_text 256 (trim key))

unfoldable pub normalize_input_ref : InputRef → Result InputRef
unfolding trimmed_key
normalize_input_ref r = do
  out_point ← normalize_out_point_ref r.out_point
  ok (record { out_point = out_point; role = r.role; resource_key = trimmed_key r.resource_key })

unfoldable pub normalize_input_refs : List InputRef → Result (List InputRef)
normalize_input_refs values = do
  throw_if (ltb 1024 (length values)) (failure ErrorCode.invalid_signed_transaction 400)
  map_result normalize_input_ref values
