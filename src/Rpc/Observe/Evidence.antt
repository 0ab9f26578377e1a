-- ===== src/Rpc/Observe/Evidence.antt =====
-- What the node must have answered before an observation counts.
use cell_flow.Prelude.{
  ℕ, ◌≤◌, ◌≡◌, ◌≢◌, Bool, true, ◌&&◌, List, Option, none, some, String, arith, eq_iff, inl, inr,
  refl, sym, subst, ◌∙◌, ap, Bool-cases, ◌==◌, string_eq, option_eq,
}
use cell_flow.Prelude.Letters.{lower_text, trim}
use cell_flow.Json.{Json}
use cell_flow.Core.Types.{InputRef, ObservedStatus, ChainObservation}
use cell_flow.Core.Errors.{Result, ok, >>=-eq-ok, ok-injective}
use cell_flow.Core.Confirmation.{parse_hex_block_number, parse_hex_codes}
use cell_flow.Rpc.Session.{
  RpcStatus, RpcTransactionStatus, RpcTransactionResult, Session, normalize_hash, header_number,
}
use cell_flow.Rpc.Observe.{
  PriorCommit, RpcObservationBundle, CommitEvidence, Identity, prior_canonical, gather_evidence,
  canonical_hash_of, header_of, canonical_verified, heights_agree, same_hash, if_truthy,
  judge_commit, observe_status, observe_found, observe_absent, inspect_some, status_of,
  assert_identity, observe,
}

-- The node shows the block at the height of `block_number` to be `block_hash`, and its tip stands
-- at that height or above.
pub record IsCanonical (s : Session) (o : ChainObservation) : Type 0 where
  pub block_hash : String
  pub block_number : String
  pub canonical : Option String
  pub hash : String
  pub height : ℕ
  pub tip : ℕ
  pub has_hash : o.block_hash ≡ some block_hash
  pub has_number : o.block_number ≡ some block_number
  pub answered : s.get_block_hash block_number ≡ ok canonical
  pub well_formed : normalize_hash canonical ≡ some hash
  pub same_block : normalize_hash (some block_hash) ≡ some hash
  pub at_height : parse_hex_block_number (some block_number) ≡ some height
  pub tip_header : Json
  pub tip_answered : s.get_tip_header ≡ ok tip_header
  pub has_tip : o.tip_block_number ≡ header_number (some tip_header)
  pub at_tip : parse_hex_block_number (header_number (some tip_header)) ≡ some tip
  pub below_tip : height ≤ tip

same_hash-eq :
    (a b : Option String) → same_hash a b ≡ true → (h : String) × (a ≡ some h) × (b ≡ some h)
unfolding same_hash
same_hash-eq none b h = cc
same_hash-eq (some a) none h = cc
same_hash-eq (some a) (some b) h = (a, refl, ground (arith, eq_iff a b))

heights_agree-le :
    (a b : Option ℕ)
    → heights_agree a b ≡ true
    → (m : ℕ) × (n : ℕ) × (a ≡ some m) × (b ≡ some n) × (m ≤ n)
unfolding heights_agree
heights_agree-le none b h = cc
heights_agree-le (some a) none h = cc
heights_agree-le (some a) (some b) h = (a, b, refl, refl, ground arith)

and_parts : (b c : Bool) → (b && c) ≡ true → (b ≡ true) × (c ≡ true)
and_parts b c h = ground arith

empty_not_hash : {h : String} → some h ≢ normalize_hash (some "")
unfolding normalize_hash lower_text trim
empty_not_hash e = cc

empty_not_number : {n : ℕ} → some n ≢ parse_hex_block_number (some "")
unfolding parse_hex_block_number parse_hex_codes
empty_not_number e = cc

-- A text with a well-formed hash, or with a height, is not empty.
normalize_hash-truthy :
    (v : Option String) (h : String) → normalize_hash v ≡ some h → if_truthy v ≡ v
normalize_hash-truthy none h e = refl
normalize_hash-truthy (some s) h e = elim (Bool-cases (s == "")) [
  | inl q ↦ absurd (empty_not_hash (sym e ∙ ap (λ v. normalize_hash (some v)) ((eq_iff s "").0 q)))
  | inr q ↦ rw q
]

parse_hex-truthy : (v : Option String) (n : ℕ) → parse_hex_block_number v ≡ some n → if_truthy v ≡ v
parse_hex-truthy none n e = refl
parse_hex-truthy (some s) n e = elim (Bool-cases (s == "")) [
  | inl q ↦
      absurd
        (empty_not_number (sym e ∙ ap (λ v. parse_hex_block_number (some v)) ((eq_iff s "").0 q)))
  | inr q ↦ rw q
]

-- The evidence that was gathered is what the node answered for its block number.
gathered :
    (s : Session) (t : RpcTransactionStatus) (e : CommitEvidence)
    → gather_evidence s t ≡ ok e
    → (canonical_hash_of s e.block_number ≡ ok e.canonical_block_hash)
      × (tip : Json) × (s.get_tip_header ≡ ok tip)
      × (e.tip_block_number ≡ header_number (some tip))
unfolding gather_evidence
gathered s t e h =
    let (header, p, h₁) = >>=-eq-ok (header_of s t.block_hash) _ h in
    let (tip, q, h₂) = >>=-eq-ok s.get_tip_header _ h₁ in
    let (canonical, r, h₃) = >>=-eq-ok (canonical_hash_of s (header_number header)) _ h₂ in
    (ground arith, tip, q, ground arith)

canonical_hash_of-answer :
    (s : Session) (n : String) (c : Option String)
    → if_truthy (some n) ≡ some n
    → canonical_hash_of s (some n) ≡ ok c
    → s.get_block_hash n ≡ ok c
unfolding canonical_hash_of
canonical_hash_of-answer s n c e h = ground arith

normalized_some :
    (v : Option String) (h : String) → normalize_hash v ≡ some h → (x : String) × (v ≡ some x)
unfolding normalize_hash
normalized_some none h e = cc
normalized_some (some x) h e = (x, refl)

parsed_some :
    (v : Option String) (n : ℕ) → parse_hex_block_number v ≡ some n → (x : String) × (v ≡ some x)
unfolding parse_hex_block_number
parsed_some none n e = cc
parsed_some (some x) n e = (x, refl)

judged_verified :
    (s : Session) (now : String) (prior : Option Bool) (r : Option RpcTransactionResult)
    (e : CommitEvidence)
    → (judge_commit s now prior r e).observation.status ≡ ObservedStatus.committed
    → canonical_verified e ≡ true
unfolding judge_commit
judged_verified s now prior r e h = ground arith

verified_parts :
    (e : CommitEvidence)
    → canonical_verified e ≡ true
    → (same_hash (normalize_hash e.block_hash) (normalize_hash e.canonical_block_hash) ≡ true)
      × (heights_agree
            (parse_hex_block_number e.block_number)
            (parse_hex_block_number e.tip_block_number)
          ≡ true)
unfolding canonical_verified
verified_parts e h = and_parts _ _ h

judged :
    (s : Session) (now : String) (prior : Option Bool) (r : Option RpcTransactionResult)
    (t : RpcTransactionStatus) (e : CommitEvidence)
    → gather_evidence s t ≡ ok e
    → (judge_commit s now prior r e).observation.status ≡ ObservedStatus.committed
    → IsCanonical s (judge_commit s now prior r e).observation
unfolding judge_commit
judged s now prior r t e g h =
    let v = judged_verified s now prior r e h in
    let (same, agree) = verified_parts e v in
    let (hash, p, q) = same_hash-eq _ _ same in
    let (height, tip, a, b, below) = heights_agree-le _ _ agree in
    let (asked, tip_header, tip_answered, tip_number) = gathered s t e g in
    let (block_hash, has_hash) = normalized_some _ _ p in
    let (block_number, has_number) = parsed_some _ _ a in
    record {
      block_hash = block_hash;
      block_number = block_number;
      canonical = e.canonical_block_hash;
      hash = hash;
      height = height;
      tip = tip;
      has_hash = rw v (normalize_hash-truthy e.block_hash hash p ∙ has_hash);
      has_number = rw v (parse_hex-truthy e.block_number height a ∙ has_number);
      answered =
          canonical_hash_of-answer s block_number e.canonical_block_hash
            (parse_hex-truthy (some block_number) height (rw has_number at a))
            (rw has_number at asked);
      well_formed = q;
      same_block = rw has_hash at p;
      at_height = rw has_number at a;
      tip_header = tip_header;
      tip_answered = tip_answered;
      has_tip = rw v (parse_hex-truthy e.tip_block_number tip b ∙ tip_number);
      at_tip = ap parse_hex_block_number (sym tip_number) ∙ b;
      below_tip = below;
    }

-- An absent transaction is observed as UNKNOWN, with what is known of the recorded block.
pub absent_unknown :
    (s : Session) (now : String) (prior : Option Bool) (inputs : List InputRef)
    (r : Option RpcTransactionResult) (b : RpcObservationBundle)
    → observe_absent s now prior inputs r ≡ ok b
    → (b.observation.status ≡ ObservedStatus.unknown)
      × (b.observation.prior_commit_canonical ≡ prior)
unfolding observe_absent
absent_unknown s now prior inputs r b h =
    let (inspection, p, q) = >>=-eq-ok (inspect_some s now inputs) _ h in ground arith

status_committed :
    (s : Session) (now : String) (prior : Option Bool) (inputs : List InputRef)
    (r : Option RpcTransactionResult) (t : RpcTransactionStatus) (b : RpcObservationBundle)
    (x : RpcStatus)
    → t.status ≡ x
    → observe_status s now prior inputs r t ≡ ok b
    → b.observation.status ≡ ObservedStatus.committed
    → IsCanonical s b.observation
unfolding observe_status
status_committed s now prior inputs r t b RpcStatus.committed e h c =
    let (evidence, g, k) = >>=-eq-ok (gather_evidence s t) _ (rw (e, observe_status) at h) in
    let same = ok-injective _ b k in
    subst (λ x. IsCanonical s x.observation) same
      (judged s now prior r t evidence g
        (subst (λ x. x.observation.status ≡ ObservedStatus.committed) (sym same) c))
status_committed s now prior inputs r t b RpcStatus.unknown e h c =
    let (u, _) = absent_unknown s now prior inputs r b (rw (e, observe_status) at h) in
    absurd (ground arith)
status_committed s now prior inputs r t b _ e h c = absurd (ground arith)

found_committed :
    (s : Session) (now : String) (prior : Option Bool) (inputs : List InputRef)
    (r : Option RpcTransactionResult) (t : Option RpcTransactionStatus) (b : RpcObservationBundle)
    → observe_found s now prior inputs r t ≡ ok b
    → b.observation.status ≡ ObservedStatus.committed
    → IsCanonical s b.observation
unfolding observe_found
found_committed s now prior inputs r none b h c =
    let (u, _) = absent_unknown s now prior inputs r b h in absurd (ground arith)
found_committed s now prior inputs r (some t) b h c =
    status_committed s now prior inputs r t b t.status refl h c

-- An observation shows the transaction as committed only where the node has shown the block: its
-- hash is well formed and is the hash that the node answers at its height, and the tip header that
-- the node answers stands at that height or above.
pub observe-IsCanonical :
    (s : Session) (info : Result Json) (expected : Identity) (now tx_hash : String)
    (prior : Option PriorCommit) (inputs : List InputRef) (b : RpcObservationBundle)
    → observe s info expected now tx_hash prior inputs ≡ ok b
    → b.observation.status ≡ ObservedStatus.committed
    → IsCanonical s b.observation
unfolding observe
observe-IsCanonical s info expected now tx_hash prior inputs b h c =
    let (_, _, h₁) = >>=-eq-ok (assert_identity s info expected) _ h in
    let (r, _, h₂) = >>=-eq-ok (s.get_transaction tx_hash) _ h₁ in
    let (canonical, _, h₃) = >>=-eq-ok (prior_canonical s prior) _ h₂ in
    found_committed s now canonical inputs r (status_of r) b h₃ c
