-- ===== src/Reconcile/Corroborate.antt =====
-- workflows/reconcile/src/reconcile.ts: `corroborateCanonicalSpend`, the second endpoint's word
-- before a conflict becomes final. The messages of errors are left out.
pub mod Endpoints
use cell_flow.Prelude.{
  ℕ, Bool, true, false, List, [], ◌∷◌, ◌++◌, Option, none, some, String, if◌then◌else◌, ◌==◌,
  string_eq, leb, nat_beq, length,
}
use cell_flow.Core.Types.{InputRef}
use cell_flow.Core.Errors.{Result, ok, err}
use cell_flow.Rpc.Inspect.{InputInspectionState, InputInspection}
use cell_flow.Rpc.Observe.{Identity}
use cell_flow.Rpc.Client.{Client, includes, inspect_input_out_points_at}

pub data CorroborationState : Type 0 where
  inspected : InputInspectionState → CorroborationState
  rpc_unavailable : CorroborationState

pub record CorroborationObservation : Type 0 where
  pub endpoint : String
  pub state : CorroborationState
  pub observed_at : Option String

pub record Corroboration : Type 0 where
  pub confirmed : Bool
  pub required_endpoints : ℕ
  pub observations : List CorroborationObservation

-- `[...new Set(endpoints)]`, the endpoints in the order of their first places.
distinct_after : List String → List String → List String
distinct_after seen [] = []
distinct_after seen (u ∷ us) =
    let kept = distinct_after seen us in
    let rest = distinct_after (u ∷ seen) us in if includes seen u then kept else u ∷ rest

unfoldable pub distinct : List String → List String
unfolding distinct_after
distinct us = distinct_after [] us

abbrev pub is_canonically_spent : InputInspectionState → Bool
is_canonically_spent InputInspectionState.canonically_spent = true
is_canonically_spent _ = false

observation_of : String → InputInspection → CorroborationObservation
observation_of endpoint i = record {
  endpoint = endpoint;
  state = inspected i.state;
  observed_at = some i.observed_at;
}

-- One pass of the loop, `rest` being what the later endpoints give from the observations so far.
ask :
    Result InputInspection
    → String
    → List CorroborationObservation
    → (List CorroborationObservation → Corroboration)
    → Corroboration
unfolding observation_of
ask (err e) endpoint seen rest =
    rest
      (seen ++ (record { endpoint = endpoint; state = rpc_unavailable; observed_at = none } ∷ []))
ask (ok secondary) endpoint seen rest =
    if is_canonically_spent secondary.state
    then record {
      confirmed = true;
      required_endpoints = 2;
      observations = seen ++ (observation_of endpoint secondary ∷ []);
    }
    else rest (seen ++ (observation_of endpoint secondary ∷ []))

unfoldable pub ask_each :
    (String → Result InputInspection)
    → String
    → List String
    → List CorroborationObservation
    → Corroboration
unfolding ask
ask_each inspect_at primary [] seen = record {
  confirmed = false;
  required_endpoints = 2;
  observations = seen;
}
ask_each inspect_at primary (u ∷ us) seen =
    let rest = ask_each inspect_at primary us in
    if u == primary then rest seen else ask (inspect_at u) u seen rest

unfoldable pub corroborate_canonical_spend :
    Client → String → InputInspection → List String → List InputRef → Identity → Corroboration
unfolding observation_of
corroborate_canonical_spend c now primary configured inputs identity =
    let first = observation_of primary.endpoint primary ∷ [] in
    if leb 2 (length (distinct configured))
    then ask_each (λ u. inspect_input_out_points_at c now u inputs identity) primary.endpoint
        (distinct configured) first
    else record {
      confirmed = is_canonically_spent primary.state;
      required_endpoints = 1;
      observations = first;
    }
