-- ===== src/Rpc/Observe.antt =====
-- workflows/reconcile/src/rpc.ts: `observe` on the session that the failover chose, after
-- `assertIdentity`; a transaction counts as committed only with canonical evidence.
pub mod Evidence
pub mod Disproof
use cell_flow.Prelude.{
  ℕ, Bool, false, not, ◌&&◌, ◌||◌, List, [], ◌∷◌, Option, none, some, String, if◌then◌else◌, ◌==◌,
  string_eq, option_eq, leb, is_some,
}
use cell_flow.Json.{Json, as_record, as_text, get}
use cell_flow.Core.Types.{InputRef, ObservedStatus, ChainObservation}
use cell_flow.Core.Errors.{Result, ok, ErrorCode, failure, CellFlowError, ◌>>=◌, ◌>>◌, throw_if}
use cell_flow.Core.Confirmation.{parse_hex_block_number}
use cell_flow.Core.Settlement.{truthy}
use cell_flow.Core.Observation.{differs}
use cell_flow.Rpc.Session.{
  RpcStatus, RpcTransactionStatus, RpcTransactionResult, Session, normalize_hash, header_number,
}
use cell_flow.Rpc.Inspect.{InputInspection, inspect_input_out_points}

pub record PriorCommit : Type 0 where
  pub block_hash : String
  pub block_number : String

pub record RpcObservationBundle : Type 0 where
  pub observation : ChainObservation
  pub rpc_result : Option RpcTransactionResult
  pub endpoint : String
  pub input_inspection : Option InputInspection

-- Whether the recorded block is still the one at its height; `none` where that is not known.
prior_canonical : Session → Option PriorCommit → Result (Option Bool)
prior_canonical s none = ok none
prior_canonical s (some p) = s.get_block_hash p.block_number >>= λ canonical. ok (
    if is_some (normalize_hash canonical)
    then some (normalize_hash canonical == normalize_hash (some p.block_hash))
    else none)

abbrev observation_of : Session → String → Option Bool → ObservedStatus → ChainObservation
observation_of s now prior status = record {
  status = status;
  observed_at = now;
  block_hash = none;
  block_number = none;
  tip_block_number = none;
  rejection_reason = none;
  rpc_endpoint = some s.url;
  canonical_block_hash = none;
  prior_commit_canonical = prior;
}

abbrev bundle :
    Session
    → Option RpcTransactionResult
    → Option InputInspection
    → ChainObservation
    → RpcObservationBundle
bundle s r inspection o = record {
  observation = o;
  rpc_result = r;
  endpoint = s.url;
  input_inspection = inspection;
}

inspect_some : Session → String → List InputRef → Result (Option InputInspection)
inspect_some s now [] = ok none
inspect_some s now (i ∷ rest) =
    inspect_input_out_points s now (i ∷ rest) >>= λ inspection. ok (some inspection)

-- The transaction is absent, or its status is one that the program does not know.
pub observe_absent :
    Session
    → String
    → Option Bool
    → List InputRef
    → Option RpcTransactionResult
    → Result RpcObservationBundle
unfolding inspect_some
observe_absent s now prior inputs r = do
  inspection ← inspect_some s now inputs
  ok (bundle s r inspection (observation_of s now prior ObservedStatus.unknown))

-- What the node says of the block of a committed transaction.
pub record CommitEvidence : Type 0 where
  pub block_hash : Option String
  pub block_number : Option String
  pub tip_block_number : Option String
  pub canonical_block_hash : Option String

header_of : Session → Option String → Result (Option Json)
header_of s none = ok none
header_of s (some h) = if h == "" then ok none else s.get_header h

canonical_hash_of : Session → Option String → Result (Option String)
canonical_hash_of s none = ok none
canonical_hash_of s (some n) = if n == "" then ok none else s.get_block_hash n

gather_evidence : Session → RpcTransactionStatus → Result CommitEvidence
unfolding header_of canonical_hash_of
gather_evidence s t = do
  header ← header_of s t.block_hash
  tip ← s.get_tip_header
  canonical ← canonical_hash_of s (header_number header)
  ok (record {
    block_hash = t.block_hash;
    block_number = header_number header;
    tip_block_number = header_number (some tip);
    canonical_block_hash = canonical;
  })

heights_agree : Option ℕ → Option ℕ → Bool
heights_agree (some block) (some tip) = leb block tip
heights_agree _ _ = false

same_hash : Option String → Option String → Bool
same_hash (some a) (some b) = a == b
same_hash _ _ = false

unfoldable pub canonical_verified : CommitEvidence → Bool
unfolding heights_agree same_hash
canonical_verified e =
    same_hash (normalize_hash e.block_hash) (normalize_hash e.canonical_block_hash)
    && heights_agree (parse_hex_block_number e.block_number)
        (parse_hex_block_number e.tip_block_number)

-- `value ? { field: value } : {}`.
abbrev if_truthy : Option String → Option String
if_truthy v = if truthy v then v else none

judge_commit :
    Session
    → String
    → Option Bool
    → Option RpcTransactionResult
    → CommitEvidence
    → RpcObservationBundle
judge_commit s now prior r e =
    if not (canonical_verified e)
    then bundle s r none (record (observation_of s now prior ObservedStatus.unknown) {
      canonical_block_hash = normalize_hash e.canonical_block_hash;
    })
    else bundle s r none (record (observation_of s now prior ObservedStatus.committed) {
      block_hash = if_truthy e.block_hash;
      block_number = if_truthy e.block_number;
      tip_block_number = if_truthy e.tip_block_number;
      canonical_block_hash = if_truthy e.canonical_block_hash;
    })

observe_status :
    Session
    → String
    → Option Bool
    → List InputRef
    → Option RpcTransactionResult
    → RpcTransactionStatus
    → Result RpcObservationBundle
unfolding judge_commit gather_evidence observe_absent
observe_status s now prior inputs r t = elim t.status [
  | RpcStatus.committed ↦ gather_evidence s t >>= λ e. ok (judge_commit s now prior r e)
  | RpcStatus.pending ↦ ok (bundle s r none (observation_of s now prior ObservedStatus.pending))
  | RpcStatus.proposed ↦ ok (bundle s r none (observation_of s now prior ObservedStatus.proposed))
  | RpcStatus.rejected ↦ ok (
      bundle s r none (record (observation_of s now prior ObservedStatus.rejected) {
        rejection_reason = if_truthy t.reason;
      }))
  | RpcStatus.unknown ↦ observe_absent s now prior inputs r
]

status_of : Option RpcTransactionResult → Option RpcTransactionStatus
status_of none = none
status_of (some r) = r.tx_status

observe_found :
    Session
    → String
    → Option Bool
    → List InputRef
    → Option RpcTransactionResult
    → Option RpcTransactionStatus
    → Result RpcObservationBundle
unfolding observe_status observe_absent
observe_found s now prior inputs r none = observe_absent s now prior inputs r
observe_found s now prior inputs r (some t) = observe_status s now prior inputs r t

pub record Identity : Type 0 where
  pub chain : Option String
  pub genesis_hash : Option String

abbrev mismatch : CellFlowError
mismatch = failure ErrorCode.rpc_response_invalid 503

-- The genesis block and the chain's name, where the project expects them. `info` is the answer of
-- `get_blockchain_info`.
unfoldable pub assert_identity : Session → Result Json → Identity → Result (Unit {0})
assert_identity s info expected = do
  found ← (if truthy expected.chain then info else ok Json.null)
  genesis ← (if truthy expected.genesis_hash then s.get_block_hash "0x0" else ok none)
  throw_if
      (truthy expected.chain && differs (as_text (get "chain" (as_record found))) expected.chain)
      mismatch
  throw_if
      (truthy expected.genesis_hash
        && (not (is_some (normalize_hash expected.genesis_hash))
            || differs (normalize_hash genesis) (normalize_hash expected.genesis_hash)))
      mismatch

unfoldable pub observe :
    Session
    → Result Json
    → Identity
    → String
    → String
    → Option PriorCommit
    → List InputRef
    → Result RpcObservationBundle
unfolding prior_canonical observe_found status_of
observe s info expected now tx_hash prior inputs = do
  assert_identity s info expected
  r ← s.get_transaction tx_hash
  canonical ← prior_canonical s prior
  observe_found s now canonical inputs r (status_of r)
