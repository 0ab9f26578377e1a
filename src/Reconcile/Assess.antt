-- ===== src/Reconcile/Assess.antt =====
-- workflows/reconcile/src/reconcile.ts: `evaluateAssertions`, the expected Cells of a confirmed
-- transaction checked against it and, in the mode `live`, against the node.
pub mod Refutation
pub mod Verdict
use cell_flow.Prelude.{
  ℕ, Bool, true, false, not, ◌&&◌, List, [], ◌∷◌, ◌++◌, Option, none, some, String, if◌then◌else◌,
}
use cell_flow.Json.{Json, Fields, end, text, bool, nullable_text, put}
use cell_flow.Core.Errors.{Result, ok, err}
use cell_flow.Core.Settlement.{truthy}
use cell_flow.Assertions.{
  RpcTransaction, RpcLiveCell, Mode, ExpectedCellAssertion, AssertionCheck, AssertionResult,
  verify_expected_cell, verify_live_cell,
}
use cell_flow.Rpc.Client.{Client, Canonicality, verify_canonical_block_at}

pub data AssessmentStatus : Type 0 where
  pending verified failed : AssessmentStatus

pub record Assessment : Type 0 where
  pub status : AssessmentStatus
  pub results : Option (List AssertionResult)
  pub reason : Option String

-- What one assertion does to the loop: it returns, or the next one is checked.
pub data Step : Type 0 where
  returns : Assessment → Step
  goes_on : List AssertionResult → Step

abbrev pub is_live_mode : ExpectedCellAssertion → Bool
is_live_mode a = elim a.mode [
  | none ↦ false
  | some m ↦ elim m [ Mode.live ↦ true | Mode.created ↦ false ]
]

-- The RPC failed.
abbrev pending_without_results : Assessment
pending_without_results = record {
  status = AssessmentStatus.pending;
  results = none;
  reason = none;
}

abbrev assessment : AssessmentStatus → List AssertionResult → String → Assessment
assessment status results reason = record {
  status = status;
  results = some results;
  reason = some reason;
}

abbrev block_of : Option RpcLiveCell → Option String
block_of none = none
block_of (some l) = l.block_hash

abbrev nullable_bool : Option Bool → Json
nullable_bool none = Json.null
nullable_bool (some b) = bool b

abbrev is_canonical : Option Bool → Bool
is_canonical none = false
is_canonical (some b) = b

abbrev fields_or_empty : Option Fields → Fields
fields_or_empty none = end
fields_or_empty (some fs) = fs

-- The result of the live check with the evidence of its block.
with_evidence : String → String → Canonicality → AssertionResult → AssertionResult
with_evidence endpoint block_hash c r = record r {
  evidence = some (
      put "rpcEndpoint" (text endpoint) (
        put "canonicalAtObservation" (nullable_bool c.canonical) (
          put "canonicalBlockHash" (nullable_text c.canonical_block_hash) (
            put "liveBlockNumber" (nullable_text c.block_number)
              (put "liveBlockHash" (text block_hash) (fields_or_empty r.evidence))))));
  checks =
      r.checks
      ++ (record {
        name = "live.blockHashCanonical";
        expected = bool true;
        actual = nullable_bool c.canonical;
        ok = is_canonical c.canonical;
      }
          ∷ []);
  ok = r.ok && is_canonical c.canonical;
}

judge_block : Option Bool → List AssertionResult → Step
judge_block (some true) results = goes_on results
judge_block (some false) results = returns (
    assessment AssessmentStatus.failed results
      "Expected live Cell was reported from a block that is no longer canonical")
judge_block none results = returns (
    assessment AssessmentStatus.pending results
      "Live Cell block canonicality could not yet be verified")

judge_canonicality :
    String → String → AssertionResult → List AssertionResult → Result Canonicality → Step
unfolding with_evidence judge_block
judge_canonicality endpoint block_hash r results (err e) = returns pending_without_results
judge_canonicality endpoint block_hash r results (ok c) =
    judge_block c.canonical (results ++ (with_evidence endpoint block_hash c r ∷ []))

-- The branch on the block of a live Cell that has passed.
check_block : Client → String → AssertionResult → List AssertionResult → Option String → Step
unfolding judge_canonicality
check_block c endpoint r results none = goes_on (results ++ (r ∷ []))
check_block c endpoint r results (some h) =
    if truthy (some h)
    then judge_canonicality endpoint h r results (verify_canonical_block_at c endpoint h)
    else goes_on (results ++ (r ∷ []))

judge_live :
    Client → String → List AssertionResult → ExpectedCellAssertion → Option RpcLiveCell → Step
unfolding check_block
judge_live c endpoint results a live =
    let r = verify_live_cell live a in
    if not r.ok
    then returns (
        assessment AssessmentStatus.failed (results ++ (r ∷ []))
          "Expected output Cell is not live or no longer matches the asserted state")
    else check_block c endpoint r results (block_of live)

check_live :
    Client
    → String
    → List AssertionResult
    → ExpectedCellAssertion
    → Result (Option RpcLiveCell)
    → Step
unfolding judge_live
check_live c endpoint results a (err e) = returns pending_without_results
check_live c endpoint results a (ok live) = judge_live c endpoint results a live

unfoldable pub assess_one :
    Client → String → String → RpcTransaction → List AssertionResult → ExpectedCellAssertion → Step
unfolding check_live
assess_one c endpoint tx_hash t results a =
    let created = verify_expected_cell t a in
    if not created.ok
    then returns (
        assessment AssessmentStatus.failed (results ++ (created ∷ []))
          "Committed transaction did not create the expected Cell state")
    else if is_live_mode a
    then check_live c endpoint (results ++ (created ∷ [])) a
        (c.live_cell_at endpoint tx_hash a.output_index)
    else goes_on (results ++ (created ∷ []))

-- What follows one assertion.
after_step : Step → (List AssertionResult → Assessment) → Assessment
after_step (returns x) rest = x
after_step (goes_on results) rest = rest results

unfoldable pub assess_each :
    Client
    → String
    → String
    → RpcTransaction
    → List ExpectedCellAssertion
    → List AssertionResult
    → Assessment
unfolding after_step
assess_each c endpoint tx_hash t [] results = record {
  status = AssessmentStatus.verified;
  results = some results;
  reason = none;
}
assess_each c endpoint tx_hash t (a ∷ rest) results =
    after_step (assess_one c endpoint tx_hash t results a) (assess_each c endpoint tx_hash t rest)

unfoldable pub evaluate_assertions :
    Client → String → String → Option RpcTransaction → List ExpectedCellAssertion → Assessment
evaluate_assertions c endpoint tx_hash none assertions = pending_without_results
evaluate_assertions c endpoint tx_hash (some t) assertions =
    assess_each c endpoint tx_hash t assertions []
