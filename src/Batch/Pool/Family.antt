-- ===== src/Batch/Pool/Family.antt =====
-- Families over the natural numbers: the update at one index, and the sum of weights.
use native.Mathlib.Decide.{ℕ_discrete}
use jinn.Base.{
  ℕ, zero, suc, ◌+◌, ◌≤◌, ◌<◌, ◌≡◌, ◌≢◌, refl, ap, ◌==◌, if◌then◌else◌, if_cases, if_true, if_false,
  arith,
}

module _ {ℓ} {A : Type ℓ} where
  abbrev pub set_at : (ℕ → A) → ℕ → A → ℕ → A
  set_at f i a j = if i == j then a else f j

module _ {ℓ κ} {A : Type ℓ} where
  -- What holds of the new value at its index and of the old values elsewhere holds everywhere.
  pub set_at-either :
      (P : A → Type κ) (f : ℕ → A) (i : ℕ) (a : A) (j : ℕ)
      → (i ≡ j → P a)
      → (i ≢ j → P (f j))
      → P (set_at f i a j)
  set_at-either P f i a j new old =
      if_cases P (i == j) a (f j) (λ e. new (ground arith)) (λ e. old (ground arith))

module _ {ℓ} {A : Type ℓ} where
  pub set_at-same : (f : ℕ → A) (i : ℕ) (a : A) → set_at f i a i ≡ a
  set_at-same f i a = if_true a (f i) (ground arith)

  pub set_at-other : (f : ℕ → A) (i : ℕ) (a : A) (j : ℕ) → i ≢ j → set_at f i a j ≡ f j
  set_at-other f i a j n = if_false a (f j) (ground arith)

module _ {ℓ} {A : Type ℓ} (weight : A → ℕ) where
  -- The weights of the first values.
  abbrev pub total : ℕ → (ℕ → A) → ℕ
  total zero f = 0
  total (suc n) f = weight (f n) + total n f

  pub total-set_at_of_le :
      (n : ℕ) (f : ℕ → A) (i : ℕ) (a : A) → n ≤ i → total n (set_at f i a) ≡ total n f
  total-set_at_of_le zero f i a h = refl
  total-set_at_of_le (suc n) f i a h =
      let e = set_at-other f i a n (λ q. omega arith) in
      rw e (ap (λ x. weight (f n) + x) (total-set_at_of_le n f i a (omega arith)))

  -- An update below the bound exchanges one weight for another.
  pub total-set_at :
      (n : ℕ) (f : ℕ → A) (i : ℕ) (a : A)
      → i < n
      → total n (set_at f i a) + weight (f i) ≡ total n f + weight a
  total-set_at zero f i a h = absurd (omega arith)
  total-set_at (suc n) f i a h = elim (ℕ_discrete i n) [
    | yes q ↦
        let new : weight (set_at f i a n) ≡ weight a = ap weight (if_true a (f n) (ground arith)) in
        let old : weight (f i) ≡ weight (f n) = ap (λ j. weight (f j)) q in
        omega (arith, new, old, total-set_at_of_le n f i a (omega arith))
    | no q ↦
        let e = set_at-other f i a n q in
        let rest = total-set_at n f i a (omega arith) in rw e (omega (arith, rest))
  ]
