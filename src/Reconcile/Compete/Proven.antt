-- ===== src/Reconcile/Compete/Proven.antt =====
-- What a promotion of a competing candidate rests on, and what the scan leaves alone.
use cell_flow.Prelude.{
  ◌≡◌, true, false, refl, List, [], ◌∷◌, some, none, All, Any, here, there, arith, ap, Bool-cases,
  inl, inr, Bool, not, select, some-injective, subst, if◌then◌else◌, ◌≢◌, Option-cases, ◌⊎◌, Option,
  String, eq_iff,
}
use cell_flow.Core.Types.{
  ObservedStatus, ChainObservation, ExecutionSnapshot, ApplyObservationResult,
}
use cell_flow.Core.Errors.{Result, ok, err}
use cell_flow.Core.Observation.{apply_chain_observation, is_committed, differs}
use cell_flow.Rpc.Observe.{RpcObservationBundle}
use cell_flow.Rpc.Observe.Evidence.{IsCanonical, observe-IsCanonical}
use cell_flow.Core.Settlement.{truthy}
use cell_flow.Rpc.Session.{RpcTransactionResult}
use cell_flow.Reconcile.Draft.{observed_fingerprint, transaction_document}
use cell_flow.Store.Rows.{TransactionAttemptRecord, IntentAggregate}
use cell_flow.Store.Apply.{Rows}
use cell_flow.Store.Errors.{Stored}
use cell_flow.Store.Promote.{PromoteInput, update_candidate_attempt, promote_attempt_projection}
use cell_flow.Reconcile.Compete.{
  Scanning, Verdict, skips, updates, promotes, Scanned, is_competing, observe_candidate,
  candidate_base, candidate_inputs, payload_differs, promotion, side_update, mismatch_update,
  promotes_applied, judge_candidate, scan, promote_committed_competing_candidate, scanned,
}

-- No fingerprint was recorded, none is found, or they are the same.
abbrev pub IsAsSigned : Scanning → TransactionAttemptRecord → Option RpcTransactionResult → Type 0
IsAsSigned x a r =
    (truthy a.signed_payload_hash_sha256 ≡ false)
    ⊎ (truthy (observed_fingerprint x.context (transaction_document r)) ≡ false)
    ⊎ (observed_fingerprint x.context (transaction_document r) ≡ a.signed_payload_hash_sha256)

not_different : (a b : Option String) → differs a b ≡ false → a ≡ b
not_different none none h = refl
not_different none (some k) h = cc
not_different (some f) none h = cc
not_different (some f) (some k) h = ap some ((eq_iff f k).0 (ground arith))

payload_differs-IsAsSigned :
    (x : Scanning) (a : TransactionAttemptRecord) (r : Option RpcTransactionResult)
    → payload_differs x a r ≡ false
    → IsAsSigned x a r
unfolding payload_differs
payload_differs-IsAsSigned x a r h =
    let found = observed_fingerprint x.context (transaction_document r) in
    elim (Bool-cases (truthy a.signed_payload_hash_sha256)) [
      | inr unknown ↦ inl unknown
      | inl known ↦ elim (Bool-cases (truthy found)) [
        | inr hidden ↦ inr (inl hidden)
        | inl shown ↦ inr (inr (not_different found a.signed_payload_hash_sha256 (ground arith)))
      ]
    ]

-- The candidate does not drive the intent; its transaction is on the canonical chain, with the
-- payload that was signed where that is known; and the promotion is that of the snapshot which the
-- state machine gives for the observation.
pub record IsProven (x : Scanning) (g : IntentAggregate) (left : Rows) (result : Stored Rows)
    (a : TransactionAttemptRecord) : Type 0 where
  pub bundle : RpcObservationBundle
  pub applied : ApplyObservationResult
  pub competing : is_competing g a ≡ true
  pub observed : observe_candidate x a ≡ ok bundle
  pub canonical : IsCanonical (x.session a) bundle.observation
  pub same_payload : payload_differs x a bundle.rpc_result ≡ false
  pub as_signed : IsAsSigned x a bundle.rpc_result
  pub applies :
      apply_chain_observation (candidate_base g.execution.confirmation_policy a) bundle.observation
      ≡ ok applied
  pub promoted :
      result ≡ promote_attempt_projection x.draws (promotion x g a bundle.observation applied) left

committed-eq : (s : ObservedStatus) → is_committed s ≡ true → s ≡ ObservedStatus.committed
committed-eq s h = ground arith

promotes_applied-eq :
    (x : Scanning) (g : IntentAggregate) (a : TransactionAttemptRecord) (o : ChainObservation)
    (r : Result ApplyObservationResult) (i : PromoteInput)
    → promotes_applied x g a o r ≡ promotes i
    → (applied : ApplyObservationResult) × (r ≡ ok applied) × (i ≡ promotion x g a o applied)
unfolding promotes_applied
promotes_applied-eq x g a o (err e) i h = cc
promotes_applied-eq x g a o (ok applied) i h = (applied, refl, cc)

side_update-calm :
    (g : IntentAggregate) (a : TransactionAttemptRecord) (r : Result ApplyObservationResult)
    (i : PromoteInput)
    → side_update g a r ≢ promotes i
unfolding side_update
side_update-calm g a (err e) i h = cc
side_update-calm g a (ok applied) i h = cc

mismatch_update-calm :
    (x : Scanning) (g : IntentAggregate) (a : TransactionAttemptRecord) (b : RpcObservationBundle)
    (r : Result ExecutionSnapshot) (i : PromoteInput)
    → mismatch_update x g a b r ≢ promotes i
unfolding mismatch_update
mismatch_update-calm x g a b (err e) i h = cc
mismatch_update-calm x g a b (ok s) i h = cc

third_branch :
    (c d : Bool) (u v w : Verdict) (i : PromoteInput)
    → u ≢ promotes i
    → v ≢ promotes i
    → (if not c then u else if d then v else w) ≡ promotes i
    → (c ≡ true) × (d ≡ false) × (w ≡ promotes i)
third_branch true true u v w i p q h = absurd (q h)
third_branch true false u v w i p q h = (refl, refl, h)
third_branch false d u v w i p q h = absurd (p h)

judge_candidate-eq :
    (x : Scanning) (g : IntentAggregate) (a : TransactionAttemptRecord) (b : RpcObservationBundle)
    (i : PromoteInput)
    → judge_candidate x g a (ok b) ≡ promotes i
    → (is_committed b.observation.status ≡ true)
      × (payload_differs x a b.rpc_result ≡ false)
      × (promotes_applied x g a b.observation (
            apply_chain_observation
              (candidate_base g.execution.confirmation_policy a)
              b.observation)
          ≡ promotes i)
unfolding judge_candidate
judge_candidate-eq x g a b i h =
    third_branch (is_committed b.observation.status) (payload_differs x a b.rpc_result) _ _ _ i
      (side_update-calm g a _ i) (mismatch_update-calm x g a b _ i) h

judged :
    (x : Scanning) (g : IntentAggregate) (a : TransactionAttemptRecord) (left : Rows)
    (o : Result RpcObservationBundle) (i : PromoteInput)
    → is_competing g a ≡ true
    → observe_candidate x a ≡ o
    → judge_candidate x g a o ≡ promotes i
    → IsProven x g left (promote_attempt_projection x.draws i left) a
unfolding observe_candidate judge_candidate
judged x g a left (err e) i c q h = cc
judged x g a left (ok b) i c q h =
    let (committed, same, promoting) = judge_candidate-eq x g a b i h in
    let (applied, applies, input) = promotes_applied-eq x g a b.observation _ i promoting in
    record {
      bundle = b;
      applied = applied;
      competing = c;
      observed = q;
      canonical =
          observe-IsCanonical (x.session a) (x.info a) x.context.identity x.context.now a.tx_hash
            none (candidate_inputs a) b q (committed-eq b.observation.status committed);
      same_payload = same;
      as_signed = payload_differs-IsAsSigned x a b.rpc_result same;
      applies = applies;
      promoted = ap (λ i. promote_attempt_projection x.draws i left) input;
    }

-- The scan has promoted a candidate of the list.
abbrev Promotes :
    Scanning → IntentAggregate → List TransactionAttemptRecord → Stored Rows → Scanned → Type 0
Promotes x g candidates result s =
    s.promoted ≡ some result → Any (IsProven x g s.rows result) candidates

scanned-Promotes :
    (x : Scanning) (g : IntentAggregate) (a : TransactionAttemptRecord)
    (rest : List TransactionAttemptRecord) (rows : Rows) (result : Stored Rows) (v : Verdict)
    → is_competing g a ≡ true
    → judge_candidate x g a (observe_candidate x a) ≡ v
    → ((r : Rows) → Promotes x g rest result (scan x g rest r))
    → Promotes x g (a ∷ rest) result (scanned x rows (scan x g rest) v)
unfolding scanned
scanned-Promotes x g a rest rows result skips c q f h = there (f rows h)
scanned-Promotes x g a rest rows result (updates i) c q f h =
    there (f (update_candidate_attempt x.updated_at i rows) h)
scanned-Promotes x g a rest rows result (promotes i) c q f h = here (
    subst (λ r. IsProven x g rows r a) (some-injective _ _ h)
      (judged x g a rows (observe_candidate x a) i c refl q))

scan-Promotes :
    (x : Scanning) (g : IntentAggregate) (candidates : List TransactionAttemptRecord) (rows : Rows)
    (result : Stored Rows)
    → All (λ a. is_competing g a ≡ true) candidates
    → Promotes x g candidates result (scan x g candidates rows)
unfolding scan
scan-Promotes x g [] rows result c h = cc
scan-Promotes x g (a ∷ rest) rows result (c, cs) h =
    scanned-Promotes x g a rest rows result (judge_candidate x g a (observe_candidate x a)) c refl
      (λ r. scan-Promotes x g rest r result cs) h

-- The projection of an intent: all of its rows but the attempts.
abbrev pub SameProjection : Rows → Rows → Type 0
SameProjection a b = (a.intent ≡ b.intent) × (a.execution ≡ b.execution) × (a.ledger ≡ b.ledger)

scanned-SameProjection :
    (x : Scanning) (rows : Rows) (after : Rows → Scanned) (v : Verdict)
    → ((r : Rows) → SameProjection (after r).rows r)
    → SameProjection (scanned x rows after v).rows rows
unfolding scanned update_candidate_attempt
scanned-SameProjection x rows after skips f = f rows
scanned-SameProjection x rows after (updates i) f = f (update_candidate_attempt x.updated_at i rows)
scanned-SameProjection x rows after (promotes i) f = (refl, refl, refl)

scan-SameProjection :
    (x : Scanning) (g : IntentAggregate) (candidates : List TransactionAttemptRecord) (rows : Rows)
    → SameProjection (scan x g candidates rows).rows rows
unfolding scan
scan-SameProjection x g [] rows = (refl, refl, refl)
scan-SameProjection x g (a ∷ rest) rows =
    scanned-SameProjection x rows (scan x g rest) (judge_candidate x g a (observe_candidate x a))
      (scan-SameProjection x g rest)

competing_only :
    (g : IntentAggregate) (attempts : List TransactionAttemptRecord)
    → All (λ a. is_competing g a ≡ true) (select (is_competing g) attempts)
competing_only g [] = tt
competing_only g (a ∷ attempts) = elim (Bool-cases (is_competing g a)) [
  | inl t ↦ rw (All, t) (t, competing_only g attempts)
  | inr n ↦ rw (All, n) (competing_only g attempts)
]

-- The scan of competing candidates leaves the projection of the intent to a promotion. It promotes
-- nothing, or an ACTIVE attempt that does not drive the intent, whose transaction an endpoint shows
-- in a canonical block, with the payload that was signed where that is known, and with the snapshot
-- that the state machine gives for the observation.
pub promotion-IsProven :
    (x : Scanning) (g : IntentAggregate) (rows : Rows)
    → SameProjection (promote_committed_competing_candidate x g rows).rows rows
      × (((promote_committed_competing_candidate x g rows).promoted ≡ none)
          ⊎ ((result : Stored Rows) × ((promote_committed_competing_candidate x g rows).promoted
                ≡ some result)
              × Any
                  (IsProven x g (promote_committed_competing_candidate x g rows).rows result)
                  (select (is_competing g) g.attempts)))
unfolding promote_committed_competing_candidate
promotion-IsProven x g rows =
    let candidates = select (is_competing g) g.attempts in
    (
      scan-SameProjection x g candidates rows,
      elim (Option-cases (scan x g candidates rows).promoted) [
        | inl nobody ↦ inl nobody
        | inr (result, p) ↦
            inr
              (result, p, scan-Promotes x g candidates rows result (competing_only g g.attempts) p)
      ],
    )
