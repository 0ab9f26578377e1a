-- ===== src/Rpc/Inspect.antt =====
-- workflows/reconcile/src/rpc.ts: `creatorCanonicalEvidence` and `inspectInputOutPointsOnSession`,
-- what the chain says of the inputs of a transaction that it does not show.
pub mod Creator
pub mod Spend
use cell_flow.Prelude.{
  Bool, true, false, List, [], ◌∷◌, Option, none, some, String, if◌then◌else◌, ◌==◌, string_eq,
  option_eq, ltb, leb, length, select,
}
use cell_flow.Prelude.Letters.{lower_text}
use cell_flow.Core.Types.{OutPointRef, InputRef}
use cell_flow.Core.Errors.{Result, ok, ◌>>=◌}
use cell_flow.Assertions.{RpcTransaction, RpcLiveCell}
use cell_flow.Rpc.Session.{
  RpcStatus, RpcTransactionStatus, RpcTransactionResult, Session, normalize_hash, header_number,
}

pub data CanonicalInputState : Type 0 where
  live spent unknown : CanonicalInputState

pub data PoolInputState : Type 0 where
  available unavailable unknown : PoolInputState

pub data InputInspectionState : Type 0 where
  all_live mempool_contended canonically_spent unknown : InputInspectionState

-- The statuses and blocks that are only stored beside the two states are left out.
pub record InputObservation : Type 0 where
  pub input : InputRef
  pub canonical : CanonicalInputState
  pub pool_aware : PoolInputState
  pub canonical_rpc_status : Option String
  pub pool_rpc_status : Option String

pub record InputInspection : Type 0 where
  pub state : InputInspectionState
  pub inputs : List InputObservation
  pub spent_inputs : List InputObservation
  pub contended_inputs : List InputObservation
  pub unknown_inputs : List InputObservation
  pub endpoint : String
  pub observed_at : String
  pub tip_block_number : Option String

-- `status?.toLowerCase() ?? null`.
abbrev lower_status : Option RpcLiveCell → Option String
lower_status none = none
lower_status (some l) = some (lower_text l.status)

abbrev is_live : Option String → Bool
is_live none = false
is_live (some s) = s == "live"

-- The block of a committed creator transaction that has the output.
unfoldable pub committed_block :
    OutPointRef → Option RpcTransactionStatus → Option RpcTransaction → Option String
committed_block o (some t) (some transaction) = elim t.status [
  | RpcStatus.committed ↦
      if leb (length transaction.outputs) o.index then none else normalize_hash t.block_hash
  | _ ↦ none
]
committed_block o _ _ = none

unfoldable pub creator_block : OutPointRef → Option RpcTransactionResult → Option String
unfolding committed_block
creator_block o none = none
creator_block o (some r) = committed_block o r.tx_status r.transaction

-- Whether the block at the height of the header is the block itself.
unfoldable pub canonical_at : Session → String → Option String → Result Bool
canonical_at s block_hash none = ok false
canonical_at s block_hash (some number) =
    if number == ""
    then ok false
    else s.get_block_hash number >>= λ h. ok (normalize_hash h == some block_hash)

unfoldable pub canonical_creator : Session → Option String → Result Bool
unfolding canonical_at
canonical_creator s none = ok false
canonical_creator s (some block_hash) = do
  header ← s.get_header block_hash
  canonical_at s block_hash (header_number header)

unfoldable pub creator_canonical_evidence : Session → OutPointRef → Result Bool
unfolding creator_block canonical_creator
creator_canonical_evidence s o = do
  creator ← s.get_transaction o.tx_hash
  canonical_creator s (creator_block o creator)

inspect_live : Session → InputRef → Option String → Result InputObservation
inspect_live s i canonical_status = do
  pool ← s.get_live_cell i.out_point true
  ok (record {
    input = i;
    canonical = CanonicalInputState.live;
    pool_aware =
        if is_live (lower_status pool)
        then PoolInputState.available
        else PoolInputState.unavailable;
    canonical_rpc_status = canonical_status;
    pool_rpc_status = lower_status pool;
  })

inspect_missing : Session → InputRef → Option String → Result InputObservation
inspect_missing s i canonical_status = do
  canonical ← creator_canonical_evidence s i.out_point
  ok (record {
    input = i;
    canonical = if canonical then CanonicalInputState.spent else CanonicalInputState.unknown;
    pool_aware = PoolInputState.unknown;
    canonical_rpc_status = canonical_status;
    pool_rpc_status = none;
  })

unfoldable pub inspect_input : Session → InputRef → Result InputObservation
unfolding inspect_live inspect_missing
inspect_input s i = s.get_live_cell i.out_point false >>= λ found.
    if is_live (lower_status found)
    then inspect_live s i (lower_status found)
    else inspect_missing s i (lower_status found)

unfoldable pub inspect_each : Session → List InputRef → Result (List InputObservation)
inspect_each s [] = ok []
inspect_each s (i ∷ rest) = inspect_input s i >>= λ o. inspect_each s rest >>= λ os. ok (o ∷ os)

abbrev pub is_spent : InputObservation → Bool
is_spent o = elim o.canonical [ CanonicalInputState.spent ↦ true | _ ↦ false ]

abbrev pub is_unknown : InputObservation → Bool
is_unknown o = elim o.canonical [ CanonicalInputState.unknown ↦ true | _ ↦ false ]

abbrev pub is_contended : InputObservation → Bool
is_contended o = elim o.canonical [
  | CanonicalInputState.live ↦ elim o.pool_aware [ PoolInputState.unavailable ↦ true | _ ↦ false ]
  | _ ↦ false
]

-- The state of the whole: a spent input counts first, then an unknown one, then a contended one.
unfoldable pub inspection_state : List InputObservation → InputInspectionState
inspection_state inputs =
    if ltb 0 (length (select is_spent inputs))
    then InputInspectionState.canonically_spent
    else if ltb 0 (length (select is_unknown inputs))
    then InputInspectionState.unknown
    else if ltb 0 (length (select is_contended inputs))
    then InputInspectionState.mempool_contended
    else InputInspectionState.all_live

unfoldable pub inspect_input_out_points : Session → String → List InputRef → Result InputInspection
inspect_input_out_points s now targets = do
  inputs ← inspect_each s targets
  tip ← s.get_tip_header
  ok (record {
    state = inspection_state inputs;
    inputs = inputs;
    spent_inputs = select is_spent inputs;
    contended_inputs = select is_contended inputs;
    unknown_inputs = select is_unknown inputs;
    endpoint = s.url;
    observed_at = now;
    tip_block_number = header_number (some tip);
  })
