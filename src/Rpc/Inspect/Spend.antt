-- ===== src/Rpc/Inspect/Spend.antt =====
-- workflows/reconcile/src/rpc.ts: what an inspection of the inputs proves.
use cell_flow.Prelude.{
  ◌<◌, ◌≡◌, true, false, List, [], ◌∷◌, Option, some, none, some-injective, String, arith, ◌≢◌,
  eq_iff, subst, ap, ◌∙◌, Any, here, there, All, Bool-cases, inl, inr, length, select, string_eq,
  option_eq,
}
use cell_flow.Prelude.Letters.{lower_text}
use cell_flow.Core.Types.{InputRef}
use cell_flow.Core.Errors.{ok, >>=-eq-ok, ok-injective}
use cell_flow.Assertions.{RpcLiveCell}
use cell_flow.Rpc.Session.{Session}
use cell_flow.Rpc.Inspect.{
  InputInspectionState, InputObservation, InputInspection, lower_status, is_live,
  creator_canonical_evidence, inspect_live, inspect_missing, inspect_input, inspect_each, is_spent,
  is_unknown, is_contended, inspection_state, inspect_input_out_points,
}
use cell_flow.Rpc.Inspect.Creator.{IsCreated, creator-IsCreated}

-- The node does not hold the Cell live, and the transaction that created it stands in the block
-- of its height.
pub record IsSpent (s : Session) (i : InputRef) : Type 0 where
  pub found : Option RpcLiveCell
  pub answered : s.get_live_cell i.out_point false ≡ ok found
  pub not_live : (l : RpcLiveCell) → found ≡ some l → lower_text l.status ≢ "live"
  pub creator : IsCreated s i.out_point

-- The node holds the Cell live, with the pool counted and without it.
pub record IsAvailable (s : Session) (i : InputRef) : Type 0 where
  pub chain : Option RpcLiveCell
  pub pool : Option RpcLiveCell
  pub on_chain : s.get_live_cell i.out_point false ≡ ok chain
  pub in_pool : s.get_live_cell i.out_point true ≡ ok pool
  pub chain_live : is_live (lower_status chain) ≡ true
  pub pool_live : is_live (lower_status pool) ≡ true

-- What the two states of one input prove.
abbrev Proves : Session → InputRef → InputObservation → Type 0
Proves s i o =
    (is_spent o ≡ true → IsSpent s i)
    × (is_spent o ≡ false → is_unknown o ≡ false → is_contended o ≡ false → IsAvailable s i)

not_live_text :
    (found : Option RpcLiveCell)
    → is_live (lower_status found) ≡ false
    → (l : RpcLiveCell) → found ≡ some l
    → lower_text l.status ≢ "live"
not_live_text none n l e = cc
not_live_text (some f) n l e = λ q. ground (
  arith,
  (eq_iff (lower_text f.status) "live").1
      (ap (λ (c : RpcLiveCell). lower_text c.status) (some-injective f l e) ∙ q),
)

missing-Proves :
    (s : Session) (i : InputRef) (found : Option RpcLiveCell) (o : InputObservation)
    → s.get_live_cell i.out_point false ≡ ok found
    → is_live (lower_status found) ≡ false
    → inspect_missing s i (lower_status found) ≡ ok o
    → Proves s i o
unfolding inspect_missing
missing-Proves s i found o a n h =
    let (canonical, c, k) = >>=-eq-ok (creator_canonical_evidence s i.out_point) _ h in
    (
      λ q. record {
        found = found;
        answered = a;
        not_live = not_live_text found n;
        creator = creator-IsCreated s i.out_point (ground arith);
      },
      λ p q r. absurd (ground arith),
    )

live-Proves :
    (s : Session) (i : InputRef) (found : Option RpcLiveCell) (o : InputObservation)
    → s.get_live_cell i.out_point false ≡ ok found
    → is_live (lower_status found) ≡ true
    → inspect_live s i (lower_status found) ≡ ok o
    → Proves s i o
unfolding inspect_live
live-Proves s i found o a l h =
    let (pool, p, k) = >>=-eq-ok (s.get_live_cell i.out_point true) _ h in
    (
      λ q. absurd (ground arith),
      λ q r c. record {
        chain = found;
        pool = pool;
        on_chain = a;
        in_pool = p;
        chain_live = l;
        pool_live = ground arith;
      },
    )

inspect_input-Proves :
    (s : Session) (i : InputRef) (o : InputObservation) → inspect_input s i ≡ ok o → Proves s i o
unfolding inspect_input
inspect_input-Proves s i o h =
    let (found, a, k) = >>=-eq-ok (s.get_live_cell i.out_point false) _ h in
    elim (Bool-cases (is_live (lower_status found))) [
      | inl l ↦ live-Proves s i found o a l (rw l at k)
      | inr n ↦ missing-Proves s i found o a n (rw n at k)
    ]

-- The observations of a list of inputs, in order.
abbrev ProveEach : Session → List InputRef → List InputObservation → Type 0
ProveEach s [] [] = Unit
ProveEach s (i ∷ is) (o ∷ os) = Proves s i o × ProveEach s is os
ProveEach s _ _ = ⊥

inspect_each-ProveEach :
    (s : Session) (is : List InputRef) (os : List InputObservation)
    → inspect_each s is ≡ ok os
    → ProveEach s is os
unfolding inspect_each
inspect_each-ProveEach s [] [] h = tt
inspect_each-ProveEach s [] (o ∷ os) h = cc
inspect_each-ProveEach s (i ∷ is) os h =
    let (o, p, k) = >>=-eq-ok (inspect_input s i) _ h in
    let (rest, q, e) = >>=-eq-ok (inspect_each s is) _ k in
    subst (ProveEach s (i ∷ is)) (ok-injective _ os e)
      (inspect_input-Proves s i o p, inspect_each-ProveEach s is rest q)

IsSpent-among :
    (s : Session) (is : List InputRef) (os : List InputObservation)
    → ProveEach s is os
    → 0 < length (select is_spent os)
    → Any (IsSpent s) is
IsSpent-among s [] [] p h = elim h [ ]
IsSpent-among s [] (o ∷ os) p h = absurd p
IsSpent-among s (i ∷ is) [] p h = absurd p
IsSpent-among s (i ∷ is) (o ∷ os) (p, ps) h = elim (Bool-cases (is_spent o)) [
  | inl e ↦ here (p.0 e)
  | inr e ↦ there (IsSpent-among s is os ps (ground arith))
]

spent_counted :
    (os : List InputObservation)
    → inspection_state os ≡ InputInspectionState.canonically_spent
    → 0 < length (select is_spent os)
unfolding inspection_state
spent_counted os h = ground arith

All-IsAvailable :
    (s : Session) (is : List InputRef) (os : List InputObservation)
    → ProveEach s is os
    → inspection_state os ≡ InputInspectionState.all_live
    → All (IsAvailable s) is
unfolding inspection_state
All-IsAvailable s [] [] p h = tt
All-IsAvailable s [] (o ∷ os) p h = absurd p
All-IsAvailable s (i ∷ is) [] p h = absurd p
All-IsAvailable s (i ∷ is) (o ∷ os) (p, ps) h =
    (p.1 (ground arith) (ground arith) (ground arith), All-IsAvailable s is os ps (ground arith))

inspection_parts :
    (s : Session) (now : String) (targets : List InputRef) (i : InputInspection)
    → inspect_input_out_points s now targets ≡ ok i
    → (os : List InputObservation) × ProveEach s targets os × (inspection_state os ≡ i.state)
unfolding inspect_input_out_points
inspection_parts s now targets i h =
    let (os, p, k) = >>=-eq-ok (inspect_each s targets) _ h in
    let (tip, _, e) = >>=-eq-ok s.get_tip_header _ k in
    (
      os,
      inspect_each-ProveEach s targets os p,
      ap (λ (x : InputInspection). x.state) (ok-injective _ i e),
    )

-- An inspection says CANONICALLY_SPENT only if one of the inputs is spent: the node does not hold
-- the Cell live and shows the transaction that created it in its canonical block.
pub inspection-IsSpent :
    (s : Session) (now : String) (targets : List InputRef) (i : InputInspection)
    → inspect_input_out_points s now targets ≡ ok i
    → i.state ≡ InputInspectionState.canonically_spent
    → Any (IsSpent s) targets
inspection-IsSpent s now targets i h q =
    let (os, each, same) = inspection_parts s now targets i h in
    IsSpent-among s targets os each (spent_counted os (same ∙ q))

-- An inspection says ALL_LIVE only if the node holds every input live, with the pool counted and
-- without it.
pub inspection-IsAvailable :
    (s : Session) (now : String) (targets : List InputRef) (i : InputInspection)
    → inspect_input_out_points s now targets ≡ ok i
    → i.state ≡ InputInspectionState.all_live
    → All (IsAvailable s) targets
inspection-IsAvailable s now targets i h q =
    let (os, each, same) = inspection_parts s now targets i h in
    All-IsAvailable s targets os each (same ∙ q)
