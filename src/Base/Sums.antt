-- ===== src/Base/Sums.antt =====
-- The sum of a measure over the entries of a table below a bound.
use dynamic_crd_watch.Base.{
  ℕ, zero, suc, ◌+◌, ◌*◌, ◌≤◌, ◌<◌, ◌≡◌, ◌≢◌, ◌⊎◌, inl, inr, refl, arith, update, ℕ_discrete,
}

module _ {A : Type 0} (weight : A → ℕ) where
  abbrev pub total : (ℕ → A) → ℕ → ℕ
  total f zero = 0
  total f (suc n) = total f n + weight (f n)

  pub total_above : (f : ℕ → A) (i : ℕ) (a : A) (n : ℕ) → n ≤ i → total (update f i a) n ≡ total f n
  total_above f i a zero le = refl
  total_above f i a (suc n) le = ground (arith, total_above f i a n)

  pub total-update :
      (f : ℕ → A) (i : ℕ) (a : A) (n : ℕ)
      → i < n
      → total (update f i a) n + weight (f i) ≡ total f n + weight a
  total-update f i a zero lt = absurd (omega arith)
  total-update f i a (suc n) lt = elim (ℕ_discrete i n) [
    | yes same ↦ ground (arith, total_above f i a n)
    | no differs ↦ ground (arith, total-update f i a n)
  ]

  pub total_bound : (f : ℕ → A) (b : ℕ) → ((a : A) → weight a ≤ b) → (n : ℕ) → total f n ≤ b * n
  total_bound f b le zero = omega arith
  total_bound f b le (suc n) = ground (arith, total_bound f b le n, le (f n))

  -- Either nothing below the bound weighs anything, or something does.
  pub total-cases :
      (f : ℕ → A) (n : ℕ)
      → ((i : ℕ) → i < n → weight (f i) ≡ 0) ⊎ ((i : ℕ) × (i < n) × (weight (f i) ≢ 0))
  total-cases f zero = inl (λ i lt. absurd (omega arith))
  total-cases f (suc n) = elim (total-cases f n) [
    | inr (i, lt, heavy) ↦ inr (i, omega arith, heavy)
    | inl light ↦ elim (ℕ_discrete (weight (f n)) 0) [
      | no heavy ↦ inr (n, omega arith, heavy)
      | yes e ↦ inl (λ i lt. ground (arith, light i))
    ]
  ]
