-- ===== src/Store/Attach/Transaction/Attempts.antt =====
-- What attaching a transaction does to the attempts of the project.
use cell_flow.Prelude.{
  ℕ, ◌≡◌, ◌≤◌, ◌<◌, ◌+◌, none, String, arith, refl, eq_iff, string_eq, option_eq, List, [], ◌∷◌,
  ◌++◌, All,
}
use cell_flow.Core.Status.{AttemptKind, kind_eq, AttemptDisposition}
use cell_flow.Store.Rows.{TransactionAttemptRecord}
use cell_flow.Store.Errors.{stored}
use cell_flow.Store.Attach.{AttachInput, kind_of}
use cell_flow.Store.Attach.Transaction.{
  AttachDraws, Attachment, attach_attempt, hash_owner, insert_attempt, new_attempt, max_number,
}

-- The attempts of an intent have the numbers up to a bound.
abbrev pub NumberedTo : ℕ → String → List TransactionAttemptRecord → Type 0
NumberedTo n intent = All λ a. a.intent_row_id ≡ intent → a.attempt_number ≤ n

NumberedTo-mono :
    (m n : ℕ) (intent : String) (as' : List TransactionAttemptRecord)
    → m ≤ n
    → NumberedTo m intent as'
    → NumberedTo n intent as'
NumberedTo-mono m n intent [] h p = tt
NumberedTo-mono m n intent (a ∷ as') h p =
    (λ q. let b = p.0 q in omega arith, NumberedTo-mono m n intent as' h p.1)

max_number-cons :
    (intent : String) (a : TransactionAttemptRecord) (as' : List TransactionAttemptRecord)
    → (max_number intent as' ≤ max_number intent (a ∷ as'))
      × (a.intent_row_id ≡ intent → a.attempt_number ≤ max_number intent (a ∷ as'))
unfolding max_number
max_number-cons intent a as' = (ground arith, λ q. ground (arith, eq_iff a.intent_row_id intent))

max_number-bounds :
    (intent : String) (as' : List TransactionAttemptRecord)
    → NumberedTo (max_number intent as') intent as'
max_number-bounds intent [] = tt
max_number-bounds intent (a ∷ as') =
    let (grows, reaches) = max_number-cons intent a as' in
    (
      reaches,
      NumberedTo-mono (max_number intent as') (max_number intent (a ∷ as')) intent as' grows
          (max_number-bounds intent as'),
    )

-- A number after the greatest is above all of them.
numbered-lt :
    (m n : ℕ) (intent : String) (as' : List TransactionAttemptRecord)
    → m < n
    → NumberedTo m intent as'
    → All (λ a. a.intent_row_id ≡ intent → a.attempt_number < n) as'
numbered-lt m n intent [] h p = tt
numbered-lt m n intent (a ∷ as') h p =
    (λ q. let b = p.0 q in omega arith, numbered-lt m n intent as' h p.1)

pub numbered_below :
    (intent : String) (as' : List TransactionAttemptRecord) (n : ℕ)
    → n ≡ max_number intent as' + 1
    → All (λ a. a.intent_row_id ≡ intent → a.attempt_number < n) as'
numbered_below intent as' n e =
    numbered-lt (max_number intent as') n intent as' (omega arith) (max_number-bounds intent as')

-- An RBF replacement leaves every attempt as it was and adds its own.
pub rbf_adds :
    (d : AttachDraws) (i : AttachInput) (table : List TransactionAttemptRecord) (t : Attachment)
    → attach_attempt d i table ≡ stored t
    → hash_owner i table ≡ none
    → kind_of i ≡ AttemptKind.rbf_replacement
    → (new : TransactionAttemptRecord) × (t.attempts ≡ table ++ new ∷ [])
      × (new.disposition ≡ AttemptDisposition.active)
      × (new.tx_hash ≡ i.tx_hash)
      × (new.attempt_number ≡ max_number i.aggregate.intent.id table + 1)
unfolding attach_attempt insert_attempt new_attempt
rbf_adds d i table t h n k =
    (new_attempt d i (max_number i.aggregate.intent.id table + 1), ground arith, refl, refl, refl)
