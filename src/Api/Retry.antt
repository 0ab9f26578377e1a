-- ===== src/Api/Retry.antt =====
-- apps/api/src/service.ts: the loops of `markSubmission` and `attachTransaction`, which try again
-- after a concurrent change, at most three times.
pub mod Attempts
use cell_flow.Prelude.{
  ◌≡◌, ◌⊎◌, inl, inr, refl, ℕ, zero, suc, Bool, true, false, not, ◌&&◌, if◌then◌else◌, nat_beq,
  arith,
}
use cell_flow.Core.Errors.{ErrorCode, CellFlowError, Result, ok, err, failure}
use cell_flow.Store.Errors.{StoreError, Stored, stored, refused}

-- What a call throws: a `CellFlowError`, or an error of the repository.
pub data Thrown : Type 0 where
  api : CellFlowError → Thrown
  store : StoreError → Thrown

pub data Call {ℓ} (V : Type ℓ) : Type ℓ where
  returned : V → Call V
  threw : Thrown → Call V

infixl 5 ◌>>=◌ ◌>>◌
abbrev pub ◌>>=◌ {ℓ κ} : {V : Type ℓ} {W : Type κ} → Call V → (V → Call W) → Call W
returned value >>= rest = rest value
threw error >>= rest = threw error

abbrev pub ◌>>◌ {κ} : {W : Type κ} → Call (Unit {0}) → Call W → Call W
first >> second = first >>= λ done. second

abbrev pub from_result {ℓ} : {V : Type ℓ} → Result V → Call V
from_result (ok v) = returned v
from_result (err e) = threw (Thrown.api e)

pub Call-cases {ℓ} :
    {A : Type ℓ} (m : Call A) → ((e : Thrown) × (m ≡ threw e)) ⊎ ((a : A) × (m ≡ returned a))
Call-cases (returned a) = inr (a, refl)
Call-cases (threw e) = inl (e, refl)

-- A call that returned has passed its first step.
pub >>=-eq-returned {ℓ κ} :
    {V : Type ℓ} {W : Type κ} (first : Call V) (rest : V → Call W) {w : W}
    → (first >>= rest) ≡ returned w
    → (v : V) × (first ≡ returned v) × (rest v ≡ returned w)
>>=-eq-returned (returned value) rest h = (value, refl, h)
>>=-eq-returned (threw error) rest h = cc

pub from_result-returned {ℓ} :
    {V : Type ℓ} (m : Result V) {v : V} → from_result m ≡ returned v → m ≡ ok v
from_result-returned (ok a) h = ground arith
from_result-returned (err e) h = cc

-- `if (test) throw ...`.
abbrev pub throw_when : Bool → CellFlowError → Call (Unit {0})
throw_when true e = threw (Thrown.api e)
throw_when false e = returned tt

abbrev pub from_stored {ℓ} : {V : Type ℓ} → Stored V → Call V
from_stored (stored v) = returned v
from_stored (refused e) = threw (Thrown.store e)

-- `error instanceof OptimisticConcurrencyError`.
abbrev pub is_concurrent {ℓ} : {V : Type ℓ} → Call V → Bool
is_concurrent (threw (Thrown.store StoreError.changed)) = true
is_concurrent _ = false

-- The loop from an attempt on, with the attempts left; past it the exhausted retry is reported.
retry_from {ℓ} : {V : Type ℓ} → (ℕ → Call V) → ℕ → ℕ → Call V
retry_from run attempt zero = threw (Thrown.api (failure ErrorCode.internal_error 503))
retry_from run attempt (suc left) =
    let rest = retry_from run (suc attempt) left in
    if is_concurrent (run attempt) && not (nat_beq attempt 2) then rest else run attempt

unfoldable pub three_attempts {ℓ} : {V : Type ℓ} → (ℕ → Call V) → Call V
unfolding retry_from
three_attempts run = retry_from run 0 3
