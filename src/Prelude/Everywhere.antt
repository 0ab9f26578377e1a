-- ===== src/Prelude/Everywhere.antt =====
-- Predicates on every entry of a list, through the operations on lists.
use mathlib.Core.Path.{◌≡◌, refl, subst}
use mathlib.Core.Logic.{inl, inr}
use mathlib.Core.Bool.{Bool, true, false}
use mathlib.Core.List.{List, [], ◌∷◌, ◌++◌, map}
use native.Mathlib.Omega.{arith}
use cell_flow.Prelude.Tests.{Bool-cases}
use cell_flow.Prelude.Lists.{All, Any, here, there, select, any}

pub All-imp {ℓ κ μ} :
    {A : Type ℓ} (P : A → Type κ) (Q : A → Type μ)
    → ((x : A) → P x → Q x)
    → (xs : List A) → All P xs
    → All Q xs
All-imp P Q f [] h = tt
All-imp P Q f (x ∷ xs) h = (f x h.0, All-imp P Q f xs h.1)

pub All-select {ℓ κ μ} :
    {A : Type ℓ} (P : A → Type κ) (Q : A → Type μ) (p : A → Bool)
    → ((x : A) → p x ≡ true → P x → Q x)
    → (xs : List A) → All P xs
    → All Q (select p xs)
All-select P Q p f [] h = tt
All-select P Q p f (x ∷ xs) h =
    let rest = All-select P Q p f xs h.1 in
    elim (Bool-cases (p x)) [ inl t ↦ rw (All, t) (f x t h.0, rest) | inr n ↦ rw (All, n) rest ]

pub All-map {ℓ κ μ ν} :
    {A : Type ℓ} {B : Type ν} (P : A → Type κ) (Q : B → Type μ) (g : A → B)
    → ((x : A) → P x → Q (g x))
    → (xs : List A) → All P xs
    → All Q (map g xs)
All-map P Q g f [] h = tt
All-map P Q g f (x ∷ xs) h = (f x h.0, All-map P Q g f xs h.1)

pub All-both {ℓ κ μ ν} :
    {A : Type ℓ} (P : A → Type κ) (Q : A → Type μ) (R : A → Type ν)
    → ((x : A) → P x → Q x → R x)
    → (xs : List A) → All P xs
    → All Q xs
    → All R xs
All-both P Q R f [] h k = tt
All-both P Q R f (x ∷ xs) h k = (f x h.0 k.0, All-both P Q R f xs h.1 k.1)

pub All-append {ℓ κ} :
    {A : Type ℓ} (P : A → Type κ) (xs ys : List A) → All P xs → All P ys → All P (xs ++ ys)
All-append P [] ys h k = k
All-append P (x ∷ xs) ys h k = (h.0, All-append P xs ys h.1 k)

pub All-at {ℓ κ} :
    {A : Type ℓ} (P : A → Type κ) (y : A) (xs : List A) → Any (λ x. x ≡ y) xs → All P xs → P y
All-at P y [] a h = elim a [ ]
All-at P y (x ∷ xs) (here e) h = subst P e h.0
All-at P y (x ∷ xs) (there a) h = All-at P y xs a h.1

-- A selection that leaves out the entries of a test has none of them.
pub any-select {ℓ} :
    {A : Type ℓ} (q p : A → Bool) (xs : List A)
    → All (λ x. q x ≡ true → p x ≡ false) xs
    → any q (select p xs) ≡ false
any-select q p [] h = refl
any-select q p (x ∷ xs) h = ground (arith, h.0, any-select q p xs h.1)
