-- ===== src/Reconcile/Assess/Refutation.antt =====
-- What a failed assessment proves, and that no check but the last one verifies.
use cell_flow.Prelude.{
  ◌≡◌, ◌≢◌, ◌⊎◌, false, List, [], ◌∷◌, Option, some, none, String, arith, refl, Any, here, there,
  Bool-cases, inl, inr, Bool,
}
use cell_flow.Core.Errors.{Result, ok, err}
use cell_flow.Core.Settlement.{truthy}
use cell_flow.Assertions.{
  RpcTransaction, RpcLiveCell, ExpectedCellAssertion, AssertionResult, verify_expected_cell,
  verify_live_cell,
}
use cell_flow.Rpc.Client.{Client, Canonicality, verify_canonical_block_at}
use cell_flow.Reconcile.Assess.{
  AssessmentStatus, Assessment, Step, returns, goes_on, is_live_mode, block_of, assess_one,
  check_live, judge_live, check_block, judge_canonicality, judge_block, after_step, assess_each,
  evaluate_assertions,
}

-- A check returns or goes on.
pub Step-cases :
    (s : Step)
    → ((x : Assessment) × (s ≡ returns x)) ⊎ ((rs : List AssertionResult) × (s ≡ goes_on rs))
Step-cases (returns x) = inl (x, refl)
Step-cases (goes_on rs) = inr (rs, refl)

-- Evidence against an assertion.
abbrev pub Refuted : Client → String → String → RpcTransaction → ExpectedCellAssertion → Type 0
Refuted c endpoint tx_hash t a =
    ((verify_expected_cell t a).ok ≡ false)
    ⊎ ((live : Option RpcLiveCell) × (c.live_cell_at endpoint tx_hash a.output_index ≡ ok live)
        × (((verify_live_cell live a).ok ≡ false)
            ⊎ ((h : String) × (v : Canonicality) × (block_of live ≡ some h)
                × (verify_canonical_block_at c endpoint h ≡ ok v)
                × (v.canonical ≡ some false))))

-- A check that returns does not verify; it fails only with evidence.
abbrev Stops : Assessment → Type 0 → Type 0
Stops x P = (x.status ≢ AssessmentStatus.verified) × (x.status ≡ AssessmentStatus.failed → P)

judge_block-Stops :
    (b : Option Bool) (rs : List AssertionResult) (x : Assessment)
    → judge_block b rs ≡ returns x
    → Stops x (b ≡ some false)
unfolding judge_block
judge_block-Stops b rs x h = ground arith

judge_canonicality-Stops :
    (endpoint h : String) (r : AssertionResult) (rs : List AssertionResult)
    (y : Result Canonicality) (x : Assessment)
    → judge_canonicality endpoint h r rs y ≡ returns x
    → Stops x ((v : Canonicality) × (y ≡ ok v) × (v.canonical ≡ some false))
unfolding judge_canonicality
judge_canonicality-Stops endpoint h r rs (err e) x q = (ground arith, λ f. absurd (ground arith))
judge_canonicality-Stops endpoint h r rs (ok v) x q =
    let (n, f) = judge_block-Stops v.canonical _ x q in (n, λ s. (v, refl, f s))

check_block-Stops :
    (c : Client) (endpoint : String) (r : AssertionResult) (rs : List AssertionResult)
    (block : Option String) (x : Assessment)
    → check_block c endpoint r rs block ≡ returns x
    → Stops x (
        (h : String) × (v : Canonicality) × (block ≡ some h)
        × (verify_canonical_block_at c endpoint h ≡ ok v)
        × (v.canonical ≡ some false))
unfolding check_block
check_block-Stops c endpoint r rs none x q = absurd (ground arith)
check_block-Stops c endpoint r rs (some h) x q = elim (Bool-cases (truthy (some h))) [
  | inl y ↦
      let (n, f) =
        judge_canonicality-Stops endpoint h r rs (verify_canonical_block_at c endpoint h) x
          (rw y at q) in
      (n, λ s. let (v, e, w) = f s in (h, v, refl, e, w))
  | inr n ↦ absurd (ground arith)
]

check_live-Stops :
    (c : Client) (endpoint tx_hash : String) (t : RpcTransaction) (rs : List AssertionResult)
    (a : ExpectedCellAssertion) (y : Result (Option RpcLiveCell)) (x : Assessment)
    → c.live_cell_at endpoint tx_hash a.output_index ≡ y
    → check_live c endpoint rs a y ≡ returns x
    → Stops x (Refuted c endpoint tx_hash t a)
unfolding check_live judge_live
check_live-Stops c endpoint tx_hash t rs a (err e) x s q =
    (ground arith, λ f. absurd (ground arith))
check_live-Stops c endpoint tx_hash t rs a (ok live) x s q =
    elim (Bool-cases (verify_live_cell live a).ok) [
      | inl y ↦
          let (n, f) = check_block-Stops c endpoint _ rs (block_of live) x (rw y at q) in
          (n, λ g. inr (live, s, inr (f g)))
      | inr m ↦ (ground arith, λ g. inr (live, s, inl m))
    ]

assess_one-Stops :
    (c : Client) (endpoint tx_hash : String) (t : RpcTransaction) (rs : List AssertionResult)
    (a : ExpectedCellAssertion) (x : Assessment)
    → assess_one c endpoint tx_hash t rs a ≡ returns x
    → Stops x (Refuted c endpoint tx_hash t a)
unfolding assess_one
assess_one-Stops c endpoint tx_hash t rs a x q = elim (Bool-cases (verify_expected_cell t a).ok) [
  | inl y ↦ elim (Bool-cases (is_live_mode a)) [
    | inl l ↦
        check_live-Stops c endpoint tx_hash t _ a (c.live_cell_at endpoint tx_hash a.output_index) x
          refl (rw (y, l) at q)
    | inr n ↦ cc (rw (y, n) at q)
  ]
  | inr n ↦ (ground arith, λ g. inl n)
]

-- A check that returns has not verified.
pub returned :
    (c : Client) (endpoint tx_hash : String) (t : RpcTransaction) (rs : List AssertionResult)
    (a : ExpectedCellAssertion) (x : Assessment)
    → assess_one c endpoint tx_hash t rs a ≡ returns x
    → x.status ≢ AssessmentStatus.verified
returned c endpoint tx_hash t rs a x q = (assess_one-Stops c endpoint tx_hash t rs a x q).0

assess_each-Refuted :
    (c : Client) (endpoint tx_hash : String) (t : RpcTransaction)
    (expected : List ExpectedCellAssertion) (rs : List AssertionResult)
    → (assess_each c endpoint tx_hash t expected rs).status ≡ AssessmentStatus.failed
    → Any (Refuted c endpoint tx_hash t) expected
unfolding assess_each after_step
assess_each-Refuted c endpoint tx_hash t [] rs h = cc
assess_each-Refuted c endpoint tx_hash t (a ∷ rest) rs h =
    elim (Step-cases (assess_one c endpoint tx_hash t rs a)) [
      | inl (x, q) ↦
          here ((assess_one-Stops c endpoint tx_hash t rs a x q).1 (rw (assess_each, q) at h))
      | inr (out, q) ↦
          there (assess_each-Refuted c endpoint tx_hash t rest out (rw (assess_each, q) at h))
    ]

-- The Cells of an intent count as failed only on evidence: the transaction does not create one of
-- them, or the node answered that it is not live as asserted or stands in a block that is not
-- canonical. A node that does not answer never makes them fail.
pub failed_refutes :
    (c : Client) (endpoint tx_hash : String) (t : Option RpcTransaction)
    (expected : List ExpectedCellAssertion)
    → (evaluate_assertions c endpoint tx_hash t expected).status ≡ AssessmentStatus.failed
    → (found : RpcTransaction) × (t ≡ some found) × Any (Refuted c endpoint tx_hash found) expected
unfolding evaluate_assertions
failed_refutes c endpoint tx_hash none expected h = cc
failed_refutes c endpoint tx_hash (some t) expected h =
    (t, refl, assess_each-Refuted c endpoint tx_hash t expected [] h)
