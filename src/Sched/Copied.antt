-- ===== src/Sched/Copied.antt =====
-- What `sched_fork` of ps9/sched.c with ps9/adjstack.c makes of a stack.
use ece.Base.{
  ℕ, suc, ◌+◌, ◌-◌, ◌*◌, ◌/◌, ◌^◌, ◌<◌, ◌≤◌, ◌≡◌, ◌≢◌, ◌⊎◌, inl, inr, ap, ◌∙◌, List, [], ◌∷◌,
  length, true, ◌||◌, ltb, none, some, update, arith,
}
use ece.Sched.Types.{stack_size}
use ece.Sched.Calls.{word}
use ece.Sched.Stack.{Memory, stack_words, adjusted, fault, adjust, copy_stack, fork_stack}
use ece.Sched.Frames.{Chain, last, Inner, diff, walk, moved, walk_inner, walk-Chain}

-- All frames are in the area.
Inner-lt :
    (m : Memory) (here there k : ℕ) (ks : List ℕ) (v : ℕ)
    → k < stack_words
    → Chain m here there k ks v
    → (i : ℕ) → Inner k ks i
    → i < stack_words
Inner-lt m here there k [] v low c i e = absurd e
Inner-lt m here there k (l ∷ ls) v low (points, up, inside, c) i (inl first) = omega arith
Inner-lt m here there k (l ∷ ls) v low (points, up, inside, c) i (inr e) =
    Inner-lt m here there l ls v inside c i e

last-lt :
    (m : Memory) (here there k : ℕ) (ks : List ℕ) (v : ℕ)
    → k < stack_words
    → Chain m here there k ks v
    → last k ks < stack_words
last-lt m here there k [] v low c = low
last-lt m here there k (l ∷ ls) v low (points, up, inside, c) = last-lt m here there l ls v inside c

last-above :
    (m : Memory) (here there k l : ℕ) (ls : List ℕ) (v : ℕ)
    → k < l
    → Chain m here there l ls v
    → k < last l ls
last-above m here there k l [] v up c = up
last-above m here there k l (l' ∷ ls) v up (points, up', inside, c) =
    last-above m here there k l' ls v (omega arith) c

Chain-last :
    (m : Memory) (here there k : ℕ) (ks : List ℕ) (v : ℕ)
    → Chain m here there k ks v
    → m (here + last k ks) ≡ some v
Chain-last m here there k [] v c = c
Chain-last m here there k (l ∷ ls) v (points, up, inside, c) = Chain-last m here there l ls v c

module _ (base here : ℕ) (m : Memory) where
  abbrev copied : Memory
  copied = copy_stack (8 * here) (8 * base) m

  copied_inside : (j : ℕ) → j < stack_words → copied (here + j) ≡ m (base + j)
  copied_inside j low =
      let at : 8 * here / 8 ≡ here = omega arith in
      let from : base + (here + j - here) ≡ base + j = omega arith in
      let from' : 8 * base / 8 ≡ base = omega arith in ground (arith, ap m from)

  copied_outside : (j : ℕ) → (j < here) ⊎ (here + stack_words ≤ j) → copied j ≡ m j
  copied_outside j out = let at : 8 * here / 8 ≡ here = omega arith in ground arith

  Chain-copied :
      (k : ℕ) (ks : List ℕ) (v : ℕ)
      → k < stack_words
      → Chain m base base k ks v
      → Chain copied here base k ks v
  Chain-copied k [] v low c = copied_inside k low ∙ c
  Chain-copied k (l ∷ ls) v low (points, up, inside, c) =
      (copied_inside k low ∙ points, up, inside, Chain-copied l ls v inside c)

  fork_stack-walk :
      (fuel k : ℕ)
      → 8 * (base + stack_words) < 2 ^ 64
      → 8 * (here + stack_words) < 2 ^ 64
      → k < stack_words
      → fork_stack fuel (8 * here) (8 * base) (8 * (base + k)) m ≡ walk base here fuel k copied
  unfolding fork_stack
  fork_stack-walk fuel k fits fits' low =
      ap (λ (p : ℕ). adjust fuel (8 * here) (8 * here + stack_size) (diff base here) p copied)
        (moved base here fits fits' k (omega arith))

-- The end of the walk: the word that points out of the area stays as it is.
walk_end :
    (base here n k v : ℕ) (m : Memory)
    → m (here + k) ≡ some v
    → (word (v + diff base here) < 8 * here) ⊎ (8 * here + stack_size < word (v + diff base here))
    → walk base here (suc n) k m ≡ adjusted m
unfolding adjust
walk_end base here n k v m holds out =
    let at : 8 * (here + k) / 8 ≡ here + k = omega arith in
    let test : (ltb (word (v + diff base here)) (8 * here)
          || ltb (8 * here + stack_size) (word (v + diff base here)))
        ≡ true =
      ground arith in
    rw (at, holds, test, adjust)

-- The last frame's saved pointer alone changes.
Chain-relinked :
    (m : Memory) (here there k : ℕ) (ks : List ℕ) (v v' : ℕ)
    → Chain m here there k ks v
    → Chain (update m (here + last k ks) (some v')) here there k ks v'
Chain-relinked m here there k [] v v' c = ground arith
Chain-relinked m here there k (l ∷ ls) v v' (points, up, inside, c) =
    let above : k < last l ls = last-above m here there k l ls v up c in
    (ground (arith, points), up, inside, Chain-relinked m here there l ls v v' c)

walk_unmapped :
    (base here n k : ℕ) (m : Memory) → m (here + k) ≡ none → walk base here (suc n) k m ≡ fault
unfolding adjust
walk_unmapped base here n k m free =
    let at : 8 * (here + k) / 8 ≡ here + k = omega arith in rw (at, free, adjust)

module _ (base here fuel k : ℕ) (ks : List ℕ) (m : Memory)
    (fits : 8 * (base + stack_words) < 2 ^ 64) (fits' : 8 * (here + stack_words) < 2 ^ 64)
    (inside : k < stack_words) where
  -- For stacks in the address space: where the frames in the caller's stack go upwards from that
  -- of `sched_fork`, the last saved pointer is the end of the caller's stack, and the word behind
  -- the new stack is not mapped, then with fuel for two frames more than point to another, the
  -- walk ends by an access to memory that is not mapped.
  pub fork_stack_fault :
      Chain m base base k ks (8 * (base + stack_words))
      → m (here + stack_words) ≡ none
      → length ks + 1 < fuel
      → fork_stack fuel (8 * here) (8 * base) (8 * (base + k)) m ≡ fault
  fork_stack_fault c free enough =
      let v = 8 * (base + stack_words) in
      let c' = Chain-copied base here m k ks v inside c in
      let (t, goes, chain, others) =
        walk-Chain base here fits fits' k ks v (copied base here m) c' in
      let n = fuel - length ks - 2 in
      let top = last k ks in
      let low = last-lt (copied base here m) here base k ks v inside c' in
      let behind : t (here + stack_words) ≡ none =
        others (here + stack_words)
          (λ i e same. omega (arith, Inner-lt (copied base here m) here base k ks v inside c' i e))
        ∙ (copied_outside base here m (here + stack_words) (inr (omega arith)) ∙ free) in
      fork_stack-walk base here m fuel k fits fits' inside
      ∙ goes (suc (suc n)) fuel (omega arith)
      ∙ walk_inner base here fits fits' (suc n) top stack_words t
          (Chain-last t here here k ks v chain) (omega arith)
      ∙ walk_unmapped base here n stack_words
          (update t (here + top) (some (8 * (here + stack_words)))) (ground arith)

  -- For stacks in the address space: where the frames in the caller's stack go upwards from that
  -- of `sched_fork`, the last saved pointer is the end of the caller's stack, and the word behind
  -- the new stack, moved as a pointer is, points out of the new stack, then with fuel for two
  -- frames more than point to another, the walk ends; the frames of the new stack are those of the
  -- old, each pointing to the next in the new stack and the last to its end; all other words of it
  -- are those of the old stack, and no other memory has changed.
  pub fork_stack_adjusted :
      (w : ℕ)
      → Chain m base base k ks (8 * (base + stack_words))
      → m (here + stack_words) ≡ some w
      → (word (w + diff base here) < 8 * here) ⊎ (8 * here + stack_size < word (w + diff base here))
      → length ks + 1 < fuel
      → (t : Memory) × (fork_stack fuel (8 * here) (8 * base) (8 * (base + k)) m ≡ adjusted t)
        × Chain t here here k ks (8 * (here + stack_words))
        × ((j : ℕ)
            → j < stack_words
            → ((i : ℕ) → Inner k ks i → j ≢ i)
            → j ≢ last k ks
            → t (here + j) ≡ m (base + j))
        × ((j : ℕ) → (j < here) ⊎ (here + stack_words ≤ j) → t j ≡ m j)
  fork_stack_adjusted w c mapped out enough =
      let v = 8 * (base + stack_words) in
      let c' = Chain-copied base here m k ks v inside c in
      let (t, goes, chain, others) =
        walk-Chain base here fits fits' k ks v (copied base here m) c' in
      let n = fuel - length ks - 2 in
      let top = last k ks in
      let low = last-lt (copied base here m) here base k ks v inside c' in
      let t' = update t (here + top) (some (8 * (here + stack_words))) in
      let away : (j : ℕ) → (j < here) ⊎ (here + stack_words ≤ j) → t j ≡ m j = λ j far.
        others j
          (λ i e same. ground (arith, Inner-lt (copied base here m) here base k ks v inside c' i e))
        ∙ copied_outside base here m j far in
      let away' : (j : ℕ) → (j < here) ⊎ (here + stack_words ≤ j) → t' j ≡ m j =
        λ j far. ground (arith, away j far) in
      (
        t',
        fork_stack-walk base here m fuel k fits fits' inside
            ∙ goes (suc (suc n)) fuel (omega arith)
            ∙ walk_inner base here fits fits' (suc n) top stack_words t
                (Chain-last t here here k ks v chain) (omega arith)
            ∙ walk_end base here n stack_words w t'
                (away' (here + stack_words) (inr (omega arith)) ∙ mapped) out,
        Chain-relinked t here here k ks v (8 * (here + stack_words)) chain,
        λ j inside' other last_other.
            ground arith
            ∙ others (here + j) (λ i e same. other i e (omega arith))
            ∙ copied_inside base here m j inside',
        away',
      )
