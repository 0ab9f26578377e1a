-- ===== src/Core/Errors.antt =====
-- packages/core/src/errors.ts: `throw new CellFlowError(...)` is the case `err` of a result. An
-- error is its code and its HTTP status; the English message is left out.
use cell_flow.Prelude.{ℕ, ◌≡◌, refl, ◌⊎◌, inl, inr, Bool, true, false}

pub data ErrorCode : Type 0 where
  auth_invalid auth_scope_required api_key_not_found project_not_found : ErrorCode
  setup_already_complete intent_conflict intent_not_found invalid_tx_hash : ErrorCode
  invalid_signed_transaction inputs_not_live inputs_contended input_state_uncertain : ErrorCode
  rpc_unavailable rpc_response_invalid transition_invalid webhook_url_invalid : ErrorCode
  rate_limited assertion_failed invalid_json invalid_cursor request_too_large : ErrorCode
  webhook_not_found internal_error : ErrorCode

pub record CellFlowError : Type 0 where
  pub code : ErrorCode
  pub http_status : ℕ

-- A value, or the error that was thrown instead of one.
pub data Result {ℓ} (V : Type ℓ) : Type ℓ where
  ok : V → Result V
  err : CellFlowError → Result V

abbrev pub failure : ErrorCode → ℕ → CellFlowError
failure c n = record { code = c; http_status = n }

-- `if (test) throw ...`.
abbrev pub throw_if : Bool → CellFlowError → Result (Unit {0})
throw_if true e = err e
throw_if false e = ok tt

infixl 5 ◌>>=◌ ◌>>◌
-- The code after a call that may throw.
abbrev pub ◌>>=◌ {ℓ κ} : {V : Type ℓ} {W : Type κ} → Result V → (V → Result W) → Result W
err thrown >>= rest = err thrown
ok value >>= rest = rest value

abbrev pub ◌>>◌ {κ} : {W : Type κ} → Result (Unit {0}) → Result W → Result W
first >> second = first >>= λ done. second

-- Code that has not thrown has passed its first call.
pub >>=-eq-ok {ℓ κ} :
    {V : Type ℓ} {W : Type κ} (first : Result V) (rest : V → Result W) {w : W}
    → (first >>= rest) ≡ ok w
    → (v : V) × (first ≡ ok v) × (rest v ≡ ok w)
>>=-eq-ok (err thrown) rest h = cc
>>=-eq-ok (ok value) rest h = (value, refl, h)

pub Result-cases {ℓ} :
    {A : Type ℓ} (m : Result A) → ((e : CellFlowError) × (m ≡ err e)) ⊎ ((a : A) × (m ≡ ok a))
Result-cases (ok a) = inr (a, refl)
Result-cases (err e) = inl (e, refl)

pub ok-injective {ℓ} : {A : Type ℓ} (a b : A) → ok a ≡ ok b → a ≡ b
ok-injective a b h = cc
