-- ===== src/Reconcile/Judge/Payload.antt =====
-- workflows/reconcile/src/reconcile.ts: a payload that differs from the one that was signed.
use cell_flow.Prelude.{
  ◌≡◌, ◌≢◌, true, Option, some, none, arith, refl, String, eq_iff, string_eq, option_eq,
}
use cell_flow.Core.Settlement.{truthy}
use cell_flow.Core.Types.{ObservedStatus}
use cell_flow.Core.Observation.{shows_transaction, differs}
use cell_flow.Rpc.Session.{RpcTransactionResult}
use cell_flow.Store.Rows.{IntentAggregate, TransactionAttemptRecord}
use cell_flow.Reconcile.Draft.{
  Context, payload_mismatch, observed_fingerprint, transaction_document, attempt_hash,
}

-- The node neither misses the transaction nor rejects it.
abbrev pub IsShown : ObservedStatus → Type 0
IsShown status = (status ≢ ObservedStatus.unknown) × (status ≢ ObservedStatus.rejected)

shows_transaction-IsShown :
    (status : ObservedStatus) → shows_transaction status ≡ true → IsShown status
shows_transaction-IsShown ObservedStatus.pending h = (λ e. cc, λ e. cc)
shows_transaction-IsShown ObservedStatus.proposed h = (λ e. cc, λ e. cc)
shows_transaction-IsShown ObservedStatus.committed h = (λ e. cc, λ e. cc)
shows_transaction-IsShown ObservedStatus.unknown h = cc
shows_transaction-IsShown ObservedStatus.rejected h = cc

-- The node shows the transaction with a payload whose fingerprint is not the one recorded for the
-- active attempt.
pub record IsMismatched (x : Context) (g : IntentAggregate) (r : Option RpcTransactionResult)
    : Type 0 where
  pub attempt : TransactionAttemptRecord
  pub answer : RpcTransactionResult
  pub recorded : String
  pub found : String
  pub active : g.active_attempt ≡ some attempt
  pub has_recorded : attempt.signed_payload_hash_sha256 ≡ some recorded
  pub shown : r ≡ some answer
  pub has_found : x.fingerprint answer.document ≡ some found
  pub different : found ≢ recorded

fingerprint-parts :
    (x : Context) (r : Option RpcTransactionResult) (found : String)
    → observed_fingerprint x (transaction_document r) ≡ some found
    → (answer : RpcTransactionResult) × (r ≡ some answer)
      × (x.fingerprint answer.document ≡ some found)
unfolding observed_fingerprint
fingerprint-parts x none found h = cc
fingerprint-parts x (some answer) found h = (answer, refl, ground arith)

hash-parts :
    (a : Option TransactionAttemptRecord) (recorded : String)
    → attempt_hash a ≡ some recorded
    → (attempt : TransactionAttemptRecord) × (a ≡ some attempt)
      × (attempt.signed_payload_hash_sha256 ≡ some recorded)
hash-parts none recorded h = cc
hash-parts (some a) recorded h = (a, refl, h)

differing :
    (a b : Option String)
    → truthy a ≡ true
    → truthy b ≡ true
    → differs a b ≡ true
    → (f : String) × (k : String) × (a ≡ some f) × (b ≡ some k) × (f ≢ k)
differing none b p q h = cc
differing (some f) none p q h = cc
differing (some f) (some k) p q h = (f, k, refl, refl, λ e. ground (arith, (eq_iff f k).1 e))

pub payload_mismatch-IsMismatched :
    (x : Context) (g : IntentAggregate) (status : ObservedStatus) (r : Option RpcTransactionResult)
    → payload_mismatch x g status r ≡ true
    → IsShown status × IsMismatched x g r
unfolding payload_mismatch
payload_mismatch-IsMismatched x g status r h =
    let observed = observed_fingerprint x (transaction_document r) in
    let hash = attempt_hash g.active_attempt in
    let (found, recorded, p, q, different) =
      differing observed hash (ground arith) (ground arith) (ground arith) in
    let (attempt, active, has_recorded) = hash-parts g.active_attempt recorded q in
    let (answer, shown, has_found) = fingerprint-parts x r found p in
    (
      shows_transaction-IsShown status (ground arith),
      record {
        attempt = attempt;
        answer = answer;
        recorded = recorded;
        found = found;
        active = active;
        has_recorded = has_recorded;
        shown = shown;
        has_found = has_found;
        different = different;
      },
    )
