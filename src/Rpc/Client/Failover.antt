-- ===== src/Rpc/Client/Failover.antt =====
-- The failover tries an endpoint whenever one is configured.
use cell_flow.Prelude.{
  ℕ, ◌<◌, ◌≡◌, List, [], ◌∷◌, String, arith, refl, All, Bool-cases, inl, inr, length, ltb, select,
  leb, Bool,
}
use cell_flow.Core.Errors.{Result, CellFlowError, ok, err, Result-cases}
use cell_flow.Rpc.Client.{
  Failures, Circuit, healthy_first, first_sorted, soonest, try_each, with_session, unavailable,
  note_endpoint_failure, cooldown_of,
}

All-select :
    (P : String → Type 0) (t : String → Bool) (us : List String) → All P us → All P (select t us)
All-select P t [] v = v
All-select P t (u ∷ us) (p, v) = elim (Bool-cases (t u)) [
  | inl y ↦ rw (All, y) (p, All-select P t us v)
  | inr n ↦ rw (All, n) (All-select P t us v)
]

All-soonest :
    (P : String → Type 0) (fs : Failures) (best : String) (us : List String)
    → P best
    → All P us
    → P (soonest fs best us)
unfolding soonest
All-soonest P fs best [] p v = p
All-soonest P fs best (u ∷ us) p (q, v) =
    elim (Bool-cases (ltb (cooldown_of u fs) (cooldown_of best fs))) [
      | inl y ↦ rw y (All-soonest P fs u us q v)
      | inr n ↦ rw n (All-soonest P fs best us p v)
    ]

-- The endpoints to try are configured ones.
All-healthy_first :
    (P : String → Type 0) (now : ℕ) (fs : Failures) (us : List String)
    → All P us
    → All P (healthy_first now fs us)
unfolding healthy_first first_sorted
All-healthy_first P now fs us v =
    elim (Bool-cases (ltb 0 (length (select (λ u. leb (cooldown_of u fs) now) us)))) [
      | inl y ↦ rw y (All-select P (λ u. leb (cooldown_of u fs) now) us v)
      | inr n ↦ rw n (sorted us v)
    ]
  where
    sorted : (vs : List String) → All P vs → All P (first_sorted fs vs)
    sorted [] w = w
    sorted (v ∷ vs) (p, w) = (All-soonest P fs v vs p w, tt)

-- There is an endpoint to try.
healthy_first_some :
    (now : ℕ) (fs : Failures) (u : String) (us : List String)
    → 0 < length (healthy_first now fs (u ∷ us))
unfolding healthy_first first_sorted
healthy_first_some now fs u us = ground arith

module _ {A : Type 0} (c : Circuit) (now : ℕ) (operation : String → Result A) where
  -- An endpoint that answers, and what it answers.
  abbrev pub Answers : String → Type 0
  Answers u = (a : A) × (operation u ≡ ok a)

  try_each_first :
      (us : List String) (fs : Failures)
      → All Answers us
      → 0 < length us
      → (a : A) × ((try_each c now operation us fs).0 ≡ ok a)
  unfolding try_each
  try_each_first [] fs v h = absurd (omega (arith, h))
  try_each_first (u ∷ us) fs ((a, e), v) h = (a, rw (try_each, e) refl)

  try_each_fails :
      (us : List String) (fs : Failures) (e : CellFlowError)
      → (try_each c now operation us fs).0 ≡ err e
      → (e ≡ unavailable) × All (λ u. (x : CellFlowError) × (operation u ≡ err x)) us
  unfolding try_each
  try_each_fails [] fs e h = (cc, tt)
  try_each_fails (u ∷ us) fs e h = elim (Result-cases (operation u)) [
    | inl (x, q) ↦
        let (same, rest) =
          try_each_fails us (note_endpoint_failure c now u fs) e (rw (try_each, q) at h) in
        (same, ((x, q), rest))
    | inr (a, q) ↦ cc (rw (try_each, q) at h)
  ]

  -- Whatever failures are recorded, a call succeeds if every configured endpoint would answer it
  -- and one is configured: the circuit breaker never leaves a call without an endpoint.
  pub with_session-Answers :
      (u : String) (us : List String) (fs : Failures)
      → All Answers (u ∷ us)
      → (a : A) × ((with_session c now (u ∷ us) operation fs).0 ≡ ok a)
  unfolding with_session
  with_session-Answers u us fs v =
      try_each_first (healthy_first now fs (u ∷ us)) fs
        (All-healthy_first Answers now fs (u ∷ us) v) (healthy_first_some now fs u us)

  -- A call fails only with RPC_UNAVAILABLE, and only after it failed at every endpoint that was
  -- to be tried, of which there is one whenever one is configured.
  pub with_session_fails :
      (u : String) (us : List String) (fs : Failures) (e : CellFlowError)
      → (with_session c now (u ∷ us) operation fs).0 ≡ err e
      → (e ≡ unavailable)
        × (0 < length (healthy_first now fs (u ∷ us)))
        × All (λ v. (x : CellFlowError) × (operation v ≡ err x)) (healthy_first now fs (u ∷ us))
  unfolding with_session
  with_session_fails u us fs e h =
      let (same, each) = try_each_fails (healthy_first now fs (u ∷ us)) fs e h in
      (same, healthy_first_some now fs u us, each)
