-- ===== src/Sched/Frames.antt =====
-- What the walk of ps9/adjstack.c makes of a chain of frames.
use ece.Base.{
  ℕ, suc, ◌+◌, ◌-◌, ◌*◌, ◌/◌, ◌^◌, ◌<◌, ◌≤◌, ◌≡◌, ◌≢◌, ◌⊎◌, inl, inr, refl, ap, ◌∙◌, List, [], ◌∷◌,
  length, false, some, ltb, update, arith,
}
use ece.Sched.Types.{stack_size}
use ece.Sched.Calls.{word}
use ece.Sched.Stack.{Memory, stack_words, Walk, adjust}

-- A chain of saved frame pointers in the area from the word `here` on: the frames are at the words `k`
-- and then `ks` of it, upwards; each points to the next as if that were in the area from `there` on,
-- and the last holds `v`.
abbrev pub Chain : Memory → (here there k : ℕ) → List ℕ → ℕ → Type 0
Chain m here there k [] v = m (here + k) ≡ some v
Chain m here there k (l ∷ ls) v =
    (m (here + k) ≡ some (8 * (there + l)))
    × (k < l)
    × (l < stack_words)
    × Chain m here there l ls v

abbrev pub last : ℕ → List ℕ → ℕ
last k [] = k
last k (l ∷ ls) = last l ls

-- The frames that point to another.
abbrev pub Inner : ℕ → List ℕ → ℕ → Type 0
Inner k [] j = ⊥
Inner k (l ∷ ls) j = (j ≡ k) ⊎ Inner l ls j

-- A write below a chain.
Chain-below :
    (m : Memory) (here there i x k : ℕ) (ks : List ℕ) (v : ℕ)
    → i < k
    → Chain m here there k ks v
    → Chain (update m (here + i) (some x)) here there k ks v
Chain-below m here there i x k [] v low c = ground (arith, c)
Chain-below m here there i x k (l ∷ ls) v low (points, up, inside, c) =
    (ground (arith, points), up, inside, Chain-below m here there i x l ls v (omega arith) c)

-- The frames of a chain lie upwards.
Inner-le :
    (m : Memory) (here there k : ℕ) (ks : List ℕ) (v : ℕ)
    → Chain m here there k ks v
    → (i : ℕ) → Inner k ks i
    → k ≤ i
Inner-le m here there k [] v c i e = absurd e
Inner-le m here there k (l ∷ ls) v c i (inl first) = omega arith
Inner-le m here there k (l ∷ ls) v (points, up, inside, c) i (inr e) =
    omega (arith, Inner-le m here there l ls v c i e)

-- The words of a memory but those of the frames that point to another.
abbrev pub Others : (here : ℕ) → (m t : Memory) → ℕ → List ℕ → Type 0
Others here m t k ks = (j : ℕ) → ((i : ℕ) → Inner k ks i → j ≢ here + i) → t j ≡ m j

module _ (base here : ℕ) where
  -- How far the areas lie from each other.
  abbrev pub diff : ℕ
  diff = word (8 * here + 2 ^ 64 - 8 * base)

  abbrev pub walk : ℕ → ℕ → Memory → Walk
  walk n k m = adjust n (8 * here) (8 * here + stack_size) diff (8 * (here + k)) m

  module _ (fits : 8 * (base + stack_words) < 2 ^ 64)
      (fits' : 8 * (here + stack_words) < 2 ^ 64) where
    pub moved : (l : ℕ) → l ≤ stack_words → word (8 * (base + l) + diff) ≡ 8 * (here + l)
    moved l inside = omega arith

    -- A frame that points to another, or to the end of the area.
    pub walk_inner :
        (n k l : ℕ) (m : Memory)
        → m (here + k) ≡ some (8 * (base + l))
        → l ≤ stack_words
        → walk (suc n) k m ≡ walk n l (update m (here + k) (some (8 * (here + l))))
    unfolding adjust
    walk_inner n k l m points inside =
        let at : 8 * (here + k) / 8 ≡ here + k = omega arith in
        let low : ltb (8 * (here + l)) (8 * here) ≡ false = ground arith in
        let high : ltb (8 * here + stack_size) (8 * (here + l)) ≡ false = ground arith in
        rw (at, points, moved l inside, low, high, at, adjust)

    -- The walk goes through a chain, and makes it one of its own area.
    pub walk-Chain :
        (k : ℕ) (ks : List ℕ) (v : ℕ) (m : Memory)
        → Chain m here base k ks v
        → (t : Memory) × ((n rounds : ℕ)
            → rounds ≡ length ks + n
            → walk rounds k m ≡ walk n (last k ks) t)
          × Chain t here here k ks v
          × Others here m t k ks
    walk-Chain k [] v m c =
        (m, λ n rounds e. ap (λ (r : ℕ). walk r k m) (omega arith), c, λ j other. refl)
    walk-Chain k (l ∷ ls) v m (points, up, inside, c) =
        let m' = update m (here + k) (some (8 * (here + l))) in
        let c' = Chain-below m here base k (8 * (here + l)) l ls v up c in
        let (t, goes, chain, others) = walk-Chain l ls v m' c' in
        let first : t (here + k) ≡ some (8 * (here + l)) =
          others (here + k) (λ i e same. omega (arith, up, Inner-le m' here base l ls v c' i e))
          ∙ ground arith in
        (
          t,
          λ n rounds e.
              ap (λ (r : ℕ). walk r k m) (omega arith)
              ∙ walk_inner (length ls + n) k l m points (omega arith)
              ∙ goes n (length ls + n) refl,
          (first, up, inside, chain),
          λ j other. others j (λ i e. other i (inr e)) ∙ ground (arith, other k (inl refl)),
        )
