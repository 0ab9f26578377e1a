-- ===== src/Reconcile/Domain.antt =====
-- workflows/reconcile/src/reconcile.ts: `inputConflictDomain`, whose inputs they are.
pub mod Roles
use cell_flow.Prelude.{Bool, not, ◌&&◌, ◌||◌, List, if◌then◌else◌, ◌==◌, any}
use cell_flow.Core.Status.{InputRole, ConflictDomain, role_eq}
use cell_flow.Rpc.Inspect.{InputObservation, InputInspection}

pub data DomainMode : Type 0 where
  spent contended : DomainMode

abbrev is_application : InputObservation → Bool
is_application o = o.input.role == InputRole.application_state

abbrev is_wallet : InputObservation → Bool
is_wallet o = o.input.role == InputRole.wallet_funding || o.input.role == InputRole.fee

abbrev is_other : InputObservation → Bool
is_other o = not (is_application o) && not (is_wallet o)

-- The tests on the three flags.
domain_of_flags : Bool → Bool → Bool → ConflictDomain
domain_of_flags application wallet unknown =
    if application && wallet
    then ConflictDomain.mixed
    else if application && not unknown
    then ConflictDomain.application
    else if wallet && not unknown
    then ConflictDomain.wallet
    else ConflictDomain.unknown

unfoldable pub domain_of_inputs : List InputObservation → ConflictDomain
unfolding domain_of_flags
domain_of_inputs os = domain_of_flags (any is_application os) (any is_wallet os) (any is_other os)

unfoldable pub input_conflict_domain : InputInspection → DomainMode → ConflictDomain
input_conflict_domain i DomainMode.spent = domain_of_inputs i.spent_inputs
input_conflict_domain i DomainMode.contended = domain_of_inputs i.contended_inputs
