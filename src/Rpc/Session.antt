-- ===== src/Rpc/Session.antt =====
-- workflows/reconcile/src/rpc.ts: one endpoint's answers during one observation, hashes and header
-- numbers. The network calls are the fields of a record: an answer or a failure for each request.
use cell_flow.Prelude.{Bool, Option, none, some, String, if◌then◌else◌, string_eq}
use cell_flow.Prelude.Digits.{codes}
use cell_flow.Prelude.Hashes.{is_hash}
use cell_flow.Prelude.Letters.{lower_text, trim}
use cell_flow.Json.{Json, as_record, as_text, get}
use cell_flow.Core.Types.{OutPointRef}
use cell_flow.Core.Errors.{Result}
use cell_flow.Assertions.{RpcTransaction, RpcLiveCell}

pub data RpcStatus : Type 0 where
  pending proposed committed unknown rejected : RpcStatus

pub record RpcTransactionStatus : Type 0 where
  pub status : RpcStatus
  pub block_hash : Option String
  pub reason : Option String

-- The result of `get_transaction`. `document` is the transaction as it came, for its fingerprint.
pub record RpcTransactionResult : Type 0 where
  pub transaction : Option RpcTransaction
  pub document : Json
  pub tx_status : Option RpcTransactionStatus

pub record Session : Type 0 where
  pub url : String
  pub get_transaction : String → Result (Option RpcTransactionResult)
  pub get_header : String → Result (Option Json)
  pub get_tip_header : Result Json
  pub get_block_hash : String → Result (Option String)
  pub get_live_cell : OutPointRef → Bool → Result (Option RpcLiveCell)

unfoldable pub normalize_hash : Option String → Option String
unfolding is_hash
normalize_hash none = none
normalize_hash (some s) =
    let normalized = lower_text (trim s) in
    if is_hash (codes normalized) then some normalized else none

number_or : Option String → Option Json → Option String
number_or (some n) inner = some n
number_or none none = none
number_or none (some h) = as_text (get "number" (as_record h))

unfoldable pub header_number : Option Json → Option String
unfolding number_or
header_number none = none
header_number (some h) =
    number_or (as_text (get "number" (as_record h))) (get "inner" (as_record h))
