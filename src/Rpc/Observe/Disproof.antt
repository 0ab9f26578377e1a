-- ===== src/Rpc/Observe/Disproof.antt =====
-- What disproves a recorded block.
use cell_flow.Prelude.{
  ◌≡◌, ◌≢◌, Bool, false, List, Option, none, some, String, arith, eq_iff, refl, sym, ◌∙◌, ap,
  is_some, if◌then◌else◌, ◌==◌, string_eq, option_eq,
}
use cell_flow.Json.{Json}
use cell_flow.Core.Types.{InputRef}
use cell_flow.Core.Errors.{Result, ok, >>=-eq-ok, ok-injective}
use cell_flow.Rpc.Session.{
  RpcStatus, RpcTransactionStatus, RpcTransactionResult, Session, normalize_hash,
}
use cell_flow.Rpc.Observe.{
  PriorCommit, RpcObservationBundle, Identity, prior_canonical, gather_evidence, judge_commit,
  observe_status, observe_found, status_of, assert_identity, observe,
}
use cell_flow.Rpc.Observe.Evidence.{absent_unknown}

prior_kept :
    (s : Session) (now : String) (prior : Option Bool) (inputs : List InputRef)
    (r : Option RpcTransactionResult) (t : RpcTransactionStatus) (b : RpcObservationBundle)
    (x : RpcStatus)
    → t.status ≡ x
    → observe_status s now prior inputs r t ≡ ok b
    → b.observation.prior_commit_canonical ≡ prior
unfolding observe_status judge_commit
prior_kept s now prior inputs r t b RpcStatus.committed e h =
    let (evidence, g, k) = >>=-eq-ok (gather_evidence s t) _ (rw (e, observe_status) at h) in
    ground arith
prior_kept s now prior inputs r t b RpcStatus.unknown e h =
    (absent_unknown s now prior inputs r b (rw (e, observe_status) at h)).1
prior_kept s now prior inputs r t b _ e h = ground arith

found_prior :
    (s : Session) (now : String) (prior : Option Bool) (inputs : List InputRef)
    (r : Option RpcTransactionResult) (t : Option RpcTransactionStatus) (b : RpcObservationBundle)
    → observe_found s now prior inputs r t ≡ ok b
    → b.observation.prior_commit_canonical ≡ prior
unfolding observe_found
found_prior s now prior inputs r none b h = (absent_unknown s now prior inputs r b h).1
found_prior s now prior inputs r (some t) b h = prior_kept s now prior inputs r t b t.status refl h

-- A recorded block that is disproved.
pub record IsDisproved (s : Session) (prior : Option PriorCommit) : Type 0 where
  pub recorded : PriorCommit
  pub answer : Option String
  pub hash : String
  pub is_recorded : prior ≡ some recorded
  pub answered : s.get_block_hash recorded.block_number ≡ ok answer
  pub well_formed : normalize_hash answer ≡ some hash
  pub other_block : normalize_hash (some recorded.block_hash) ≢ some hash

compared :
    (a b : Option String)
    → (if is_some a then some (a == b) else none) ≡ some false
    → (hash : String) × (a ≡ some hash) × (b ≢ some hash)
compared none b h = cc
compared (some x) none h = (x, refl, λ e. cc)
compared (some x) (some y) h = (x, refl, ground (arith, eq_iff x y))

prior_canonical-IsDisproved :
    (s : Session) (prior : Option PriorCommit)
    → prior_canonical s prior ≡ ok (some false)
    → IsDisproved s prior
unfolding prior_canonical
prior_canonical-IsDisproved s none h = cc
prior_canonical-IsDisproved s (some p) h =
    let (answer, a, k) = >>=-eq-ok (s.get_block_hash p.block_number) _ h in
    let (hash, e, ne) =
      compared (normalize_hash answer) (normalize_hash (some p.block_hash)) (ok-injective _ _ k) in
    record {
      recorded = p;
      answer = answer;
      hash = hash;
      is_recorded = refl;
      answered = a;
      well_formed = e;
      other_block = ne;
    }

-- The recorded block is disproved only by a well-formed hash of the node at the recorded height
-- that is not the recorded one.
pub observe-IsDisproved :
    (s : Session) (info : Result Json) (expected : Identity) (now tx_hash : String)
    (prior : Option PriorCommit) (inputs : List InputRef) (b : RpcObservationBundle)
    → observe s info expected now tx_hash prior inputs ≡ ok b
    → b.observation.prior_commit_canonical ≡ some false
    → IsDisproved s prior
unfolding observe
observe-IsDisproved s info expected now tx_hash prior inputs b h d =
    let (_, _, h₁) = >>=-eq-ok (assert_identity s info expected) _ h in
    let (r, _, h₂) = >>=-eq-ok (s.get_transaction tx_hash) _ h₁ in
    let (canonical, p, h₃) = >>=-eq-ok (prior_canonical s prior) _ h₂ in
    prior_canonical-IsDisproved s prior
      (p ∙ ap ok (sym (found_prior s now canonical inputs r (status_of r) b h₃) ∙ d))
