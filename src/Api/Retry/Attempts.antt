-- ===== src/Api/Retry/Attempts.antt =====
-- The outcome of the loop is the outcome of one of its attempts.
use cell_flow.Prelude.{
  ℕ, zero, suc, sym, ◌∙◌, ◌≡◌, ◌<◌, inl, inr, Bool-cases, false, arith, refl, if◌then◌else◌,
}
use cell_flow.Api.Retry.{Call, is_concurrent, three_attempts}

module _ {ℓ} {V : Type ℓ} (run : ℕ → Call V) where
  -- The loop gives the first attempt that met no concurrent change, and else the third.
  pub three_attempts_lem :
      three_attempts run
      ≡ (if is_concurrent (run 0) then if is_concurrent (run 1) then run 2 else run 1 else run 0)
  unfolding three_attempts
  three_attempts_lem = elim (Bool-cases (is_concurrent (run 0))) [
    | inl a ↦ elim (Bool-cases (is_concurrent (run 1))) [
      | inl b ↦ elim (Bool-cases (is_concurrent (run 2))) [
        | inl c ↦ rw (a, b, c) refl
        | inr c ↦ rw (a, b, c) refl
      ]
      | inr b ↦ rw (a, b) refl
    ]
    | inr a ↦ rw a refl
  ]

  -- A call that once meets no concurrent change does not end with one.
  pub three_attempts_calm :
      (k : ℕ) → k < 3 → is_concurrent (run k) ≡ false → is_concurrent (three_attempts run) ≡ false
  three_attempts_calm zero h calm = rw (three_attempts_lem, calm) calm
  three_attempts_calm (suc zero) h calm =
      rw three_attempts_lem
        (elim (Bool-cases (is_concurrent (run 0))) [ inl a ↦ rw (a, calm) calm | inr a ↦ rw (a) a ])
  three_attempts_calm (suc (suc zero)) h calm =
      rw three_attempts_lem (elim (Bool-cases (is_concurrent (run 0))) [
        | inl a ↦ elim (Bool-cases (is_concurrent (run 1))) [
          | inl b ↦ rw (a, b) calm
          | inr b ↦ rw (a, b) b
        ]
        | inr a ↦ rw (a) a
      ])
  three_attempts_calm (suc (suc (suc k))) h calm = absurd (omega arith)

  -- What the loop returns or throws, one of its three attempts did.
  pub three_attempts_one : {c : Call V} → three_attempts run ≡ c → (k : ℕ) × (k < 3) × (run k ≡ c)
  three_attempts_one e = elim (Bool-cases (is_concurrent (run 0))) [
    | inl a ↦ elim (Bool-cases (is_concurrent (run 1))) [
      | inl b ↦ (2, omega arith, sym (three_attempts_lem ∙ rw (a, b) refl) ∙ e)
      | inr b ↦ (1, omega arith, sym (three_attempts_lem ∙ rw (a, b) refl) ∙ e)
    ]
    | inr a ↦ (0, omega arith, sym (three_attempts_lem ∙ rw a refl) ∙ e)
  ]
