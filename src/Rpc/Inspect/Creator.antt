-- ===== src/Rpc/Inspect/Creator.antt =====
-- workflows/reconcile/src/rpc.ts: the transaction that created a Cell, in its canonical block.
use cell_flow.Json.{Json}
use cell_flow.Prelude.{
  ◌<◌, ◌≡◌, true, Option, String, arith, ap, ◌∙◌, Bool-cases, inl, inr, length, some, none, refl,
  eq_iff, ◌==◌, string_eq, option_eq,
}
use cell_flow.Core.Types.{OutPointRef}
use cell_flow.Core.Errors.{ok, >>=-eq-ok, ◌>>=◌}
use cell_flow.Assertions.{RpcTransaction}
use cell_flow.Rpc.Session.{
  Session, normalize_hash, header_number, RpcTransactionResult, RpcTransactionStatus, RpcStatus,
}
use cell_flow.Rpc.Inspect.{
  creator_canonical_evidence, creator_block, committed_block, canonical_at, canonical_creator,
}

-- The node shows the transaction that created the Cell as committed with that output, in a block
-- that is the one at the height of its header.
pub record IsCreated (s : Session) (o : OutPointRef) : Type 0 where
  pub creator : RpcTransactionResult
  pub status : RpcTransactionStatus
  pub transaction : RpcTransaction
  pub header : Option Json
  pub block_hash : String
  pub number : String
  pub at_height : Option String
  pub created : s.get_transaction o.tx_hash ≡ ok (some creator)
  pub has_status : creator.tx_status ≡ some status
  pub has_transaction : creator.transaction ≡ some transaction
  pub committed : status.status ≡ RpcStatus.committed
  pub has_output : o.index < length transaction.outputs
  pub in_block : normalize_hash status.block_hash ≡ some block_hash
  pub has_header : s.get_header block_hash ≡ ok header
  pub has_number : header_number header ≡ some number
  pub answered : s.get_block_hash number ≡ ok at_height
  pub canonical : normalize_hash at_height ≡ some block_hash

committed_block-parts :
    (o : OutPointRef) (st : Option RpcTransactionStatus) (tx : Option RpcTransaction) (h : String)
    → committed_block o st tx ≡ some h
    → (status : RpcTransactionStatus) × (transaction : RpcTransaction) × (st ≡ some status)
      × (tx ≡ some transaction)
      × (status.status ≡ RpcStatus.committed)
      × (o.index < length transaction.outputs)
      × (normalize_hash status.block_hash ≡ some h)
unfolding committed_block
committed_block-parts o none tx h e = cc
committed_block-parts o (some t) none h e = cc
committed_block-parts o (some t) (some x) h e =
    (t, x, refl, refl, ground arith, ground arith, ground arith)

same_hash_text : (found : Option String) (h : String) → (found == some h) ≡ true → found ≡ some h
same_hash_text none h e = cc
same_hash_text (some f) h e = ap some ((eq_iff f h).0 e)

canonical_at-parts :
    (s : Session) (block_hash : String) (number : Option String)
    → canonical_at s block_hash number ≡ ok true
    → (n : String) × (found : Option String) × (number ≡ some n)
      × (s.get_block_hash n ≡ ok found)
      × (normalize_hash found ≡ some block_hash)
unfolding canonical_at
canonical_at-parts s block_hash none e = cc
canonical_at-parts s block_hash (some n) e = elim (Bool-cases (n == "")) [
  | inl empty ↦ cc (rw (canonical_at, empty) at e)
  | inr number ↦
      let (found, answered, same) =
        >>=-eq-ok (s.get_block_hash n) _ (rw (canonical_at, number) at e) in
      (n, found, refl, answered, same_hash_text (normalize_hash found) block_hash (ground arith))
]

creator_block-parts :
    (o : OutPointRef) (r : Option RpcTransactionResult) (h : String)
    → creator_block o r ≡ some h
    → (creator : RpcTransactionResult) × (r ≡ some creator)
      × (committed_block o creator.tx_status creator.transaction ≡ some h)
unfolding creator_block
creator_block-parts o none h e = cc
creator_block-parts o (some r) h e = (r, refl, e)

canonical_creator-parts :
    (s : Session) (block : Option String)
    → canonical_creator s block ≡ ok true
    → (h : String) × (block ≡ some h)
      × ((s.get_header h >>= λ header. canonical_at s h (header_number header)) ≡ ok true)
unfolding canonical_creator
canonical_creator-parts s none e = cc
canonical_creator-parts s (some h) e = (h, refl, e)

pub creator-IsCreated :
    (s : Session) (o : OutPointRef) → creator_canonical_evidence s o ≡ ok true → IsCreated s o
unfolding creator_canonical_evidence
creator-IsCreated s o h =
    let (answer, created, h₁) = >>=-eq-ok (s.get_transaction o.tx_hash) _ h in
    let (block_hash, in_creator, h₂) = canonical_creator-parts s (creator_block o answer) h₁ in
    let (creator, is_there, in_block) = creator_block-parts o answer block_hash in_creator in
    let (status, transaction, has_status, has_transaction, committed, has_output, hash) =
      committed_block-parts o creator.tx_status creator.transaction block_hash in_block in
    let (header, has_header, h₃) = >>=-eq-ok (s.get_header block_hash) _ h₂ in
    let (number, found, has_number, answered, canonical) =
      canonical_at-parts s block_hash (header_number header) h₃ in
    record {
      creator = creator;
      status = status;
      transaction = transaction;
      header = header;
      block_hash = block_hash;
      number = number;
      at_height = found;
      created = created ∙ ap ok is_there;
      has_status = has_status;
      has_transaction = has_transaction;
      committed = committed;
      has_output = has_output;
      in_block = hash;
      has_header = has_header;
      has_number = has_number;
      answered = answered;
      canonical = canonical;
    }
