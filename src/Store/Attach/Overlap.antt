-- ===== src/Store/Attach/Overlap.antt =====
-- packages/db/src/repository.ts: an RBF replacement shares an input with its parent.
use cell_flow.Prelude.{
  ◌≡◌, true, false, Option, some, none, arith, string_eq, option_eq, List, [], ◌∷◌, option_beq_iff,
  Any, any, here, there, Bool-cases, inl, inr, ◌⊎◌, eq_iff, Bool, refl,
}
use cell_flow.Prelude.Letters.{lower_text}
use cell_flow.Core.Status.{AttemptKind, kind_eq}
use cell_flow.Core.Settlement.{truthy}
use cell_flow.Core.Types.{OutPointRef}
use cell_flow.Store.Rows.{TransactionAttemptRecord}
use cell_flow.Store.Errors.{stored}
use cell_flow.Store.Attach.{
  AttachInput, shares_input, persisted_inputs, check_parent, same_hash, same_key, given_some,
}

-- The request names RBF_REPLACEMENT and inputs of its own, one of which spends a Cell that the
-- active attempt spends; the parent that it names, if it does, is that attempt.
pub record IsOverlapping (i : AttachInput) : Type 0 where
  pub parent : TransactionAttemptRecord
  pub inputs : List OutPointRef
  pub named : i.attempt_kind ≡ some AttemptKind.rbf_replacement
  pub active : i.aggregate.active_attempt ≡ some parent
  pub given_inputs : i.input_out_points ≡ some inputs
  pub overlap :
      Any
        (λ p.
          Any
            (λ q. (lower_text p.tx_hash ≡ lower_text q.tx_hash) × (p.index ≡ q.index))
            parent.input_out_points)
        inputs
  pub of_parent : (truthy i.parent_attempt_id ≡ false) ⊎ (i.parent_attempt_id ≡ some parent.id)

any-Any :
    (p : OutPointRef → Bool) (xs : List OutPointRef) → any p xs ≡ true → Any (λ x. p x ≡ true) xs
any-Any p [] h = cc
any-Any p (x ∷ xs) h = elim (Bool-cases (p x)) [
  | inl y ↦ here y
  | inr n ↦ there (any-Any p xs (ground arith))
]

Any-imp :
    (P Q : OutPointRef → Type 0)
    → ((x : OutPointRef) → P x → Q x)
    → (xs : List OutPointRef) → Any P xs
    → Any Q xs
Any-imp P Q f [] a = elim a [ ]
Any-imp P Q f (x ∷ xs) (here h) = here (f x h)
Any-imp P Q f (x ∷ xs) (there a) = there (Any-imp P Q f xs a)

same_key-eq :
    (p q : OutPointRef)
    → same_key p q ≡ true
    → (lower_text p.tx_hash ≡ lower_text q.tx_hash) × (p.index ≡ q.index)
unfolding same_key
same_key-eq p q h = ground (arith, eq_iff (lower_text p.tx_hash) (lower_text q.tx_hash))

shares_input-Any :
    (mine theirs : List OutPointRef)
    → shares_input mine theirs ≡ true
    → Any
        (λ p. Any (λ q. (lower_text p.tx_hash ≡ lower_text q.tx_hash) × (p.index ≡ q.index)) theirs)
        mine
unfolding shares_input
shares_input-Any mine theirs h =
    Any-imp _ _
      (λ p e. Any-imp _ _ (λ q k. same_key-eq p q k) theirs (any-Any (same_key p) theirs e)) mine
      (any-Any (λ p. any (same_key p) theirs) mine h)

given_overlap :
    (g : Option (List OutPointRef)) (theirs : List OutPointRef)
    → any (λ p. any (same_key p) theirs) (given_some g []) ≡ true
    → g ≡ some (given_some g [])
given_overlap none theirs h = cc
given_overlap (some []) theirs h = cc
given_overlap (some (a ∷ rest)) theirs h = refl

-- Inputs that are shared by a new hash are those of the request.
shared_given :
    (i : AttachInput) (theirs : List OutPointRef)
    → same_hash i ≡ false
    → shares_input (persisted_inputs i) theirs ≡ true
    → i.input_out_points ≡ some (persisted_inputs i)
unfolding persisted_inputs shares_input
shared_given i theirs n h = rw n (given_overlap i.input_out_points theirs (rw n at h))

pub check_parent-IsOverlapping :
    (i : AttachInput) (active : Option TransactionAttemptRecord)
    → i.aggregate.active_attempt ≡ active
    → i.attempt_kind ≡ some AttemptKind.rbf_replacement
    → same_hash i ≡ false
    → check_parent i active ≡ stored tt
    → IsOverlapping i
unfolding check_parent
check_parent-IsOverlapping i none a k n h = cc
check_parent-IsOverlapping i (some parent) a k n h =
    let shares : shares_input (persisted_inputs i) parent.input_out_points ≡ true = ground arith in
    record {
      parent = parent;
      inputs = persisted_inputs i;
      named = k;
      active = a;
      given_inputs = shared_given i parent.input_out_points n shares;
      overlap = shares_input-Any (persisted_inputs i) parent.input_out_points shares;
      of_parent = elim (Bool-cases (truthy i.parent_attempt_id)) [
        | inr unnamed ↦ inl unnamed
        | inl named ↦ inr (
            (option_beq_iff string_eq.beq string_eq.beq_iff i.parent_attempt_id (some parent.id)).0
              (ground arith))
      ];
    }
