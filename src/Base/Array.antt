-- ===== src/Base/Array.antt =====
-- Arrays as functions from indices, with a write at one index.
use Prim.Native.Nat.{ℕ, zero, suc, ◌+◌, ◌*◌, ◌<◌, ◌≤◌}
use mathlib.Core.Path.{◌≡◌, refl}
use mathlib.Core.Logic.{◌≢◌, inl, inr}
use native.Mathlib.Omega.{arith}
use ece.Base.Tests.{◌==◌, if◌then◌else◌, Bool-cases}

-- `f[i] = a;`
abbrev pub update {ℓ} : {A : Type ℓ} → (ℕ → A) → ℕ → A → ℕ → A
update f i a j = if i == j then a else f j

module _ {ℓ} {A : Type ℓ} (w : A → ℕ) where
  -- The sum of a weight over the first `n` entries.
  pub total : ℕ → (ℕ → A) → ℕ
  total zero f = 0
  total (suc n) f = total n f + w (f n)

  -- The sum's equations, for other files.
  pub total-zero : (f : ℕ → A) → total zero f ≡ 0
  unfolding total
  total-zero f = refl

  pub total-suc : (n : ℕ) (f : ℕ → A) → total (suc n) f ≡ total n f + w (f n)
  unfolding total
  total-suc n f = refl

  -- Arrays whose entries weigh the same have the same sum.
  pub total_congr :
      (n : ℕ) (f g : ℕ → A) → ((i : ℕ) → i < n → w (f i) ≡ w (g i)) → total n f ≡ total n g
  unfolding total
  total_congr zero f g h = refl
  total_congr (suc n) f g h =
      omega (arith, total_congr n f g (λ i p. h i (omega arith)), h n (omega arith))

  -- Arrays that agree in weight but at `i` differ in their sums as they do there.
  pub total_at :
      (n : ℕ) (f g : ℕ → A) (i : ℕ)
      → i < n
      → ((j : ℕ) → j < n → j ≢ i → w (f j) ≡ w (g j))
      → total n f + w (g i) ≡ total n g + w (f i)
  unfolding total
  total_at zero f g i p h = absurd (omega arith)
  total_at (suc n) f g i p h = elim (Bool-cases (i == n)) [
    | inl last ↦
        let here : i ≡ n = ground arith in
        ground (arith, total_congr n f g (λ j q. h j (omega arith) (omega arith)))
    | inr below ↦
        let here : i < n = ground arith in
        omega (
          arith,
          total_at n f g i here (λ j q. h j (omega arith)),
          h n (omega arith) (ground arith),
        )
  ]

  -- The sum of entries that weigh the same, or that weigh no more.
  pub total_const : (n c : ℕ) (f : ℕ → A) → ((i : ℕ) → i < n → w (f i) ≡ c) → total n f ≡ n * c
  unfolding total
  total_const zero c f h = omega arith
  total_const (suc n) c f h =
      grind (arith, total_const n c f (λ i p. h i (omega arith)), h n (omega arith))

  pub total_le : (n c : ℕ) (f : ℕ → A) → ((i : ℕ) → i < n → w (f i) ≤ c) → total n f ≤ n * c
  unfolding total
  total_le zero c f h = omega arith
  total_le (suc n) c f h =
      grind (arith, total_le n c f (λ i p. h i (omega arith)), h n (omega arith))

  -- Entries that weigh no more than `c`, and come to the most that they can, weigh `c`.
  pub total_full :
      (n c : ℕ) (f : ℕ → A)
      → ((i : ℕ) → i < n → w (f i) ≤ c)
      → total n f ≡ n * c
      → (i : ℕ) → i < n
      → w (f i) ≡ c
  unfolding total
  total_full zero c f h e i below = absurd (omega arith)
  total_full (suc n) c f h e i below =
      let rest = total_le n c f (λ j p. h j (omega arith)) in
      let last = h n (omega arith) in
      let here : w (f n) ≡ c = grind arith in
      let before : total n f ≡ n * c = grind arith in
      elim (Bool-cases (i == n)) [
        | inl same ↦ let at : i ≡ n = ground arith in cc (here, at)
        | inr other ↦ total_full n c f (λ j p. h j (omega arith)) before i (ground arith)
      ]
