-- ===== src/Reconcile/Corroborate/Endpoints.antt =====
-- Who has seen the spend that a corroboration confirms.
use cell_flow.Prelude.{
  ◌≤◌, ◌<◌, ◌≡◌, ◌≢◌, ◌⊎◌, true, false, List, [], ◌∷◌, String, arith, eq_iff, Any, here, there,
  Bool-cases, inl, inr, ◌==◌, string_eq, length, leb,
}
use cell_flow.Core.Types.{InputRef}
use cell_flow.Core.Errors.{Result, ok, Result-cases}
use cell_flow.Rpc.Inspect.{InputInspectionState, InputInspection}
use cell_flow.Rpc.Observe.{Identity}
use cell_flow.Rpc.Client.{Client, includes, inspect_input_out_points_at}
use cell_flow.Reconcile.Corroborate.{
  CorroborationObservation, is_canonically_spent, distinct_after, distinct, ask_each,
  corroborate_canonical_spend,
}

Any-tail :
    (P : String → Type 0) (u : String) (us vs : List String)
    → (Any P us → Any P vs)
    → Any P (u ∷ us)
    → Any P (u ∷ vs)
Any-tail P u us vs f (here p) = here p
Any-tail P u us vs f (there a) = there (f a)

Any-distinct_after :
    (P : String → Type 0) (seen us : List String) → Any P (distinct_after seen us) → Any P us
unfolding distinct_after
Any-distinct_after P seen [] a = a
Any-distinct_after P seen (u ∷ us) a = elim (Bool-cases (includes seen u)) [
  | inl y ↦ there (Any-distinct_after P seen us (rw (distinct_after, y) at a))
  | inr n ↦ Any-tail P u _ us (Any-distinct_after P (u ∷ seen) us) (rw (distinct_after, n) at a)
]

unequal : (a b : String) → (a == b) ≡ false → a ≢ b
unequal a b h = ground (arith, eq_iff a b)

spent-state :
    (s : InputInspectionState)
    → is_canonically_spent s ≡ true
    → s ≡ InputInspectionState.canonically_spent
spent-state s h = ground arith

module _ (inspect_at : String → Result InputInspection) (primary : String) where
  -- Another endpoint than the primary one, which inspects the inputs and finds one spent.
  abbrev pub Corroborates : String → Type 0
  Corroborates u =
      (u ≢ primary)
      × (i : InputInspection) × (inspect_at u ≡ ok i)
      × (i.state ≡ InputInspectionState.canonically_spent)

  ask_each-Corroborates :
      (us : List String) (seen : List CorroborationObservation)
      → (ask_each inspect_at primary us seen).confirmed ≡ true
      → Any Corroborates us
  unfolding ask_each
  ask_each-Corroborates [] seen h = cc
  ask_each-Corroborates (u ∷ us) seen h = elim (Bool-cases (u == primary)) [
    | inl y ↦ there (ask_each-Corroborates us _ (rw (ask_each, y) at h))
    | inr n ↦ elim (Result-cases (inspect_at u)) [
      | inl (e, q) ↦ there (ask_each-Corroborates us _ (rw (ask_each, n, q) at h))
      | inr (i, q) ↦ elim (Bool-cases (is_canonically_spent i.state)) [
        | inl found ↦ here (unequal u primary n, i, q, spent-state i.state found)
        | inr other ↦ there (ask_each-Corroborates us _ (rw (ask_each, n, q, other) at h))
      ]
    ]
  ]

-- A spend is confirmed, where two endpoints or more are configured, only if a configured endpoint
-- other than the primary one inspects the inputs and finds one spent; where one is configured, only
-- if the primary one has found it.
pub spend_corroborated :
    (c : Client) (now : String) (primary : InputInspection) (configured : List String)
    (inputs : List InputRef) (identity : Identity)
    → (corroborate_canonical_spend c now primary configured inputs identity).confirmed ≡ true
    → ((2 ≤ length (distinct configured))
        × Any
            (Corroborates
              (λ u. inspect_input_out_points_at c now u inputs identity)
              primary.endpoint)
            configured)
      ⊎ ((length (distinct configured) < 2)
          × (primary.state ≡ InputInspectionState.canonically_spent))
unfolding corroborate_canonical_spend distinct
spend_corroborated c now primary configured inputs identity h =
    elim (Bool-cases (leb 2 (length (distinct configured)))) [
      | inl y ↦ inl (
        ground arith,
        Any-distinct_after _ [] configured
            (ask_each-Corroborates _ primary.endpoint (distinct configured) _ (rw y at h)),
      )
      | inr n ↦ inr (ground arith, spent-state primary.state (rw n at h))
    ]
