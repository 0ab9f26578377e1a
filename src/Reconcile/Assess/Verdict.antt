-- ===== src/Reconcile/Assess/Verdict.antt =====
-- What a verified assessment proves.
use cell_flow.Prelude.{
  ◌≡◌, ◌⊎◌, true, false, List, [], ◌∷◌, Option, some, none, String, arith, refl, All, Bool-cases,
  inl, inr, Bool,
}
use cell_flow.Core.Errors.{Result, ok, err}
use cell_flow.Core.Settlement.{truthy}
use cell_flow.Assertions.{
  RpcTransaction, RpcLiveCell, ExpectedCellAssertion, AssertionResult, verify_expected_cell,
  verify_live_cell,
}
use cell_flow.Rpc.Client.{Client, Canonicality, verify_canonical_block_at}
use cell_flow.Reconcile.Assess.{
  AssessmentStatus, goes_on, is_live_mode, block_of, assess_one, check_live, judge_live,
  check_block, judge_canonicality, judge_block, after_step, assess_each, evaluate_assertions,
}
use cell_flow.Reconcile.Assess.Refutation.{Step-cases, returned}

-- The block of a live Cell, where the node gave one, stands at its height.
abbrev pub BlockStands : Client → String → Option String → Type 0
BlockStands c endpoint block =
    (truthy block ≡ false)
    ⊎ ((h : String) × (v : Canonicality) × (block ≡ some h)
        × (verify_canonical_block_at c endpoint h ≡ ok v)
        × (v.canonical ≡ some true))

-- The node holds the asserted Cell live, in a block that stands.
pub record LivePasses (c : Client) (endpoint tx_hash : String) (a : ExpectedCellAssertion)
    : Type 0 where
  pub live : Option RpcLiveCell
  pub answered : c.live_cell_at endpoint tx_hash a.output_index ≡ ok live
  pub matches : (verify_live_cell live a).ok ≡ true
  pub stands : BlockStands c endpoint (block_of live)

-- An assertion passes.
abbrev pub Passed : Client → String → String → RpcTransaction → ExpectedCellAssertion → Type 0
Passed c endpoint tx_hash t a =
    ((verify_expected_cell t a).ok ≡ true)
    × ((is_live_mode a ≡ false) ⊎ LivePasses c endpoint tx_hash a)

judge_block-goes_on :
    (b : Option Bool) (rs out : List AssertionResult)
    → judge_block b rs ≡ goes_on out
    → b ≡ some true
unfolding judge_block
judge_block-goes_on b rs out h = ground arith

judge_canonicality-goes_on :
    (endpoint h : String) (r : AssertionResult) (rs out : List AssertionResult)
    (x : Result Canonicality)
    → judge_canonicality endpoint h r rs x ≡ goes_on out
    → (v : Canonicality) × (x ≡ ok v) × (v.canonical ≡ some true)
unfolding judge_canonicality
judge_canonicality-goes_on endpoint h r rs out (err e) q = cc
judge_canonicality-goes_on endpoint h r rs out (ok v) q =
    (v, refl, judge_block-goes_on v.canonical _ out q)

check_block-goes_on :
    (c : Client) (endpoint : String) (r : AssertionResult) (rs out : List AssertionResult)
    (block : Option String)
    → check_block c endpoint r rs block ≡ goes_on out
    → BlockStands c endpoint block
unfolding check_block
check_block-goes_on c endpoint r rs out none q = inl refl
check_block-goes_on c endpoint r rs out (some h) q = elim (Bool-cases (truthy (some h))) [
  | inl y ↦
      let (v, e, w) =
        judge_canonicality-goes_on endpoint h r rs out (verify_canonical_block_at c endpoint h)
          (rw y at q) in
      inr (h, v, refl, e, w)
  | inr n ↦ inl n
]

check_live-goes_on :
    (c : Client) (endpoint tx_hash : String) (rs out : List AssertionResult)
    (a : ExpectedCellAssertion) (x : Result (Option RpcLiveCell))
    → c.live_cell_at endpoint tx_hash a.output_index ≡ x
    → check_live c endpoint rs a x ≡ goes_on out
    → LivePasses c endpoint tx_hash a
unfolding check_live judge_live
check_live-goes_on c endpoint tx_hash rs out a (err e) s q = cc
check_live-goes_on c endpoint tx_hash rs out a (ok live) s q =
    elim (Bool-cases (verify_live_cell live a).ok) [
      | inl y ↦ record {
        live = live;
        answered = s;
        matches = y;
        stands = check_block-goes_on c endpoint _ rs out (block_of live) (rw y at q);
      }
      | inr n ↦ cc (rw n at q)
    ]

assess_one-Passed :
    (c : Client) (endpoint tx_hash : String) (t : RpcTransaction) (rs out : List AssertionResult)
    (a : ExpectedCellAssertion)
    → assess_one c endpoint tx_hash t rs a ≡ goes_on out
    → Passed c endpoint tx_hash t a
unfolding assess_one
assess_one-Passed c endpoint tx_hash t rs out a q =
    elim (Bool-cases (verify_expected_cell t a).ok) [
      | inl y ↦ elim (Bool-cases (is_live_mode a)) [
        | inl l ↦ (
          y,
          inr (
              check_live-goes_on c endpoint tx_hash _ out a
                (c.live_cell_at endpoint tx_hash a.output_index) refl (rw (y, l) at q)),
        )
        | inr n ↦ (y, inl n)
      ]
      | inr n ↦ cc (rw n at q)
    ]

-- Where every check passes the loop ends with its results, and every assertion has passed.
assess_each-Passed :
    (c : Client) (endpoint tx_hash : String) (t : RpcTransaction)
    (expected : List ExpectedCellAssertion) (rs : List AssertionResult)
    → (assess_each c endpoint tx_hash t expected rs).status ≡ AssessmentStatus.verified
    → All (Passed c endpoint tx_hash t) expected
unfolding assess_each after_step
assess_each-Passed c endpoint tx_hash t [] rs h = tt
assess_each-Passed c endpoint tx_hash t (a ∷ rest) rs h =
    elim (Step-cases (assess_one c endpoint tx_hash t rs a)) [
      | inl (x, q) ↦ absurd (returned c endpoint tx_hash t rs a x q (rw (assess_each, q) at h))
      | inr (out, q) ↦ (
        assess_one-Passed c endpoint tx_hash t rs out a q,
        assess_each-Passed c endpoint tx_hash t rest out (rw (assess_each, q) at h),
      )
    ]

-- The Cells of an intent count as verified only if every assertion passes: the transaction creates
-- the Cell, and in the mode `live` the node also holds it live, in a block that stands at its
-- height wherever the node names one.
pub verified_passes :
    (c : Client) (endpoint tx_hash : String) (t : Option RpcTransaction)
    (expected : List ExpectedCellAssertion)
    → (evaluate_assertions c endpoint tx_hash t expected).status ≡ AssessmentStatus.verified
    → (found : RpcTransaction) × (t ≡ some found) × All (Passed c endpoint tx_hash found) expected
unfolding evaluate_assertions
verified_passes c endpoint tx_hash none expected h = cc
verified_passes c endpoint tx_hash (some t) expected h =
    (t, refl, assess_each-Passed c endpoint tx_hash t expected [] h)
