-- ===== src/Reconcile/Domain/Roles.antt =====
-- Which roles make which domain.
use cell_flow.Prelude.{◌≡◌, true, false, Bool, List, [], ◌∷◌, arith, any, All}
use cell_flow.Core.Status.{InputRole, ConflictDomain}
use cell_flow.Rpc.Inspect.{InputObservation}
use cell_flow.Reconcile.Domain.{
  is_application, is_wallet, is_other, domain_of_inputs, domain_of_flags,
}

any_none :
    (p q : InputObservation → Bool) (os : List InputObservation)
    → any p os ≡ false
    → any q os ≡ false
    → All (λ o. (p o ≡ false) × (q o ≡ false)) os
any_none p q [] h k = tt
any_none p q (o ∷ os) h k =
    ((ground arith, ground arith), any_none p q os (ground arith) (ground arith))

All-application :
    (os : List InputObservation)
    → All (λ o. (is_wallet o ≡ false) × (is_other o ≡ false)) os
    → All (λ o. o.input.role ≡ InputRole.application_state) os
All-application [] v = tt
All-application (o ∷ os) ((w, n), v) = (ground arith, All-application os v)

All-wallet :
    (os : List InputObservation)
    → All (λ o. (is_application o ≡ false) × (is_other o ≡ false)) os
    → All (λ o. is_wallet o ≡ true) os
All-wallet [] v = tt
All-wallet (o ∷ os) ((w, n), v) = (ground arith, All-wallet os v)

flags_application :
    (a w u : Bool) → domain_of_flags a w u ≡ ConflictDomain.application → (w ≡ false) × (u ≡ false)
unfolding domain_of_flags
flags_application a w u h = ground arith

flags_wallet :
    (a w u : Bool) → domain_of_flags a w u ≡ ConflictDomain.wallet → (a ≡ false) × (u ≡ false)
unfolding domain_of_flags
flags_wallet a w u h = ground arith

-- The domain is APPLICATION only if every input of the conflict is application state.
pub domain_application :
    (os : List InputObservation)
    → domain_of_inputs os ≡ ConflictDomain.application
    → All (λ o. o.input.role ≡ InputRole.application_state) os
unfolding domain_of_inputs
domain_application os h =
    let (w, u) = flags_application _ _ _ h in
    All-application os (any_none is_wallet is_other os w u)

-- The domain is WALLET only if every input of the conflict funds the wallet's side or pays the fee.
pub domain_wallet :
    (os : List InputObservation)
    → domain_of_inputs os ≡ ConflictDomain.wallet
    → All (λ o. is_wallet o ≡ true) os
unfolding domain_of_inputs
domain_wallet os h =
    let (a, u) = flags_wallet _ _ _ h in All-wallet os (any_none is_application is_other os a u)
