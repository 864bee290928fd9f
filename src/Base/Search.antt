-- ===== src/Base/Search.antt =====
-- The loop `for (i = start; i < start + n; ++i) if (test(i)) break;`: the first index that passes.
use Prim.Native.Nat.{ℕ, zero, suc, ◌+◌, ◌≤◌, ◌<◌}
use mathlib.Core.Path.{◌≡◌}
use mathlib.Core.Logic.{inl, inr}
use mathlib.Core.Bool.{Bool, true, false}
use mathlib.Core.Option.{Option, none, some}
use native.Mathlib.Omega.{arith}
use ece.Base.Tests.{Bool-cases, Option-cases}

unfoldable pub find_from : (ℕ → Bool) → ℕ → ℕ → Option ℕ
find_from test zero i = none
find_from test (suc n) i = elim (test i) [ true ↦ some i | false ↦ find_from test n (i + 1) ]

-- What the loop has found: an index in range that passes, and none before it does.
pub record Found (test : ℕ → Bool) (n i k : ℕ) : Type 0 where
  pub above : i ≤ k
  pub below : k < i + n
  pub passes : test k ≡ true
  pub first : (j : ℕ) → i ≤ j → j < k → test j ≡ false

module _ (test : ℕ → Bool) where
  Found-later : (n i k : ℕ) → test i ≡ false → Found test n (i + 1) k → Found test (suc n) i k
  Found-later n i k miss f = record {
    above = omega arith;
    below = omega arith;
    passes = f.passes;
    first = λ j p q. grind (arith, miss, f.first);
  }

  pub find_from-hit : (n i : ℕ) → test i ≡ true → find_from test (suc n) i ≡ some i
  unfolding find_from
  find_from-hit n i hit = rw (hit, find_from)

  pub find_from-some : (n i k : ℕ) → find_from test n i ≡ some k → Found test n i k
  unfolding find_from
  find_from-some zero i k e = cc
  find_from-some (suc n) i k e = elim (Bool-cases (test i)) [
    | inl hit ↦
        let same : some i ≡ some k = rw (hit, find_from) at e in
        record {
          above = ground arith;
          below = ground arith;
          passes = ground arith;
          first = λ j p q. ground arith;
        }
    | inr miss ↦ Found-later n i k miss (find_from-some n (i + 1) k (rw (miss, find_from) at e))
  ]

  pub find_from-none : (n i j : ℕ) → find_from test n i ≡ none → i ≤ j → j < i + n → test j ≡ false
  unfolding find_from
  find_from-none zero i j e p q = absurd (omega arith)
  find_from-none (suc n) i j e p q = elim (Bool-cases (test i)) [
    | inl hit ↦ cc (rw (hit, find_from) at e)
    | inr miss ↦ grind (arith, miss, find_from-none n (i + 1) j (rw (miss, find_from) at e))
  ]

  -- The only index that passes is found.
  pub find_from_unique :
      (n i k : ℕ)
      → i ≤ k
      → k < i + n
      → test k ≡ true
      → ((j : ℕ) → i ≤ j → j < i + n → test j ≡ true → j ≡ k)
      → find_from test n i ≡ some k
  find_from_unique n i k low high hit only = elim (Option-cases (find_from test n i)) [
    | inl e ↦ let miss : test k ≡ false = find_from-none n i k e low high in cc (hit, miss)
    | inr (m, e) ↦ let f = find_from-some n i m e in rw (e, only m f.above f.below f.passes)
  ]
