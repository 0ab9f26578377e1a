-- ===== src/Store/Errors.antt =====
-- packages/db/src/repository.ts: the errors that its transactions throw, by their messages;
-- `changed` is OptimisticConcurrencyError. A transaction that throws writes nothing.
use cell_flow.Prelude.{◌≡◌, refl, ◌⊎◌, inl, inr, Bool, true, false}

pub data StoreError : Type 0 where
  attempt_kind_invalid unsafe_attempt_replacement attempt_parent_conflict : StoreError
  rbf_inputs_do_not_overlap tx_hash_conflict attempt_input_conflict : StoreError
  attempt_signed_payload_conflict changed : StoreError

-- What a transaction gives, or the error that it threw instead.
pub data Stored {ℓ} (V : Type ℓ) : Type ℓ where
  stored : V → Stored V
  refused : StoreError → Stored V

infixl 5 ◌>>=◌ ◌>>◌
abbrev pub ◌>>=◌ {ℓ κ} : {V : Type ℓ} {W : Type κ} → Stored V → (V → Stored W) → Stored W
stored value >>= rest = rest value
refused thrown >>= rest = refused thrown

abbrev pub ◌>>◌ {κ} : {W : Type κ} → Stored (Unit {0}) → Stored W → Stored W
first >> second = first >>= λ done. second

-- `if (test) throw ...`.
abbrev pub refuse_if : Bool → StoreError → Stored (Unit {0})
refuse_if true e = refused e
refuse_if false e = stored tt

pub Stored-cases {ℓ} :
    {A : Type ℓ} (m : Stored A) → ((e : StoreError) × (m ≡ refused e)) ⊎ ((a : A) × (m ≡ stored a))
Stored-cases (stored a) = inr (a, refl)
Stored-cases (refused e) = inl (e, refl)

-- A transaction that went through has passed its first step.
pub >>=-eq-stored {ℓ κ} :
    {V : Type ℓ} {W : Type κ} (first : Stored V) (rest : V → Stored W) {w : W}
    → (first >>= rest) ≡ stored w
    → (v : V) × (first ≡ stored v) × (rest v ≡ stored w)
>>=-eq-stored (stored value) rest h = (value, refl, h)
>>=-eq-stored (refused thrown) rest h = cc

pub refuse_if-eq-stored :
    (b : Bool) (e : StoreError) {u : Unit {0}} → refuse_if b e ≡ stored u → b ≡ false
refuse_if-eq-stored true e h = cc
refuse_if-eq-stored false e h = refl
