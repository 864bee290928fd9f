-- ===== src/Posix/Table.antt =====
-- Descriptors as a function from their numbers: it has the assumed behaviour.
use ece.Base.{
  ℕ, ◌<◌, ◌≡◌, ◌≢◌, Bool, true, false, Option, none, some, if◌then◌else◌, update, find_from,
  find_from-some, find_from-none, Option-cases, inl, inr, arith, refl, ap,
}
use mathlib.Core.Option
use ece.Posix.Interface.{Descriptors, IsPosix}

-- The number of descriptors that a process may have.
abbrev pub limit : ℕ
limit = 1024

module _ {F : Type 0} (can_open : F → Bool) where
  abbrev is_free : Option F → Bool
  is_free none = true
  is_free (some f) = false

  abbrev free_from : (ℕ → Option F) → Option ℕ
  free_from s = find_from (λ i. is_free (s i)) limit 0

  abbrev table_open : (ℕ → Option F) → F → Option (ℕ × (ℕ → Option F))
  table_open s f =
      if can_open f then Option.map (λ fd. (fd, update s fd (some f))) (free_from s) else none

  abbrev table_dup2 : (ℕ → Option F) → ℕ → ℕ → Option (ℕ → Option F)
  table_dup2 s a b = if is_free (s a) then none else some (update s b (s a))

  -- A pipe needs no file to be opened.
  abbrev place : (ℕ → Option F) → F → Option (ℕ × (ℕ → Option F))
  place s f = Option.map (λ fd. (fd, update s fd (some f))) (free_from s)

  abbrev table_pipe : (ℕ → Option F) → F → F → Option (ℕ × ℕ × (ℕ → Option F))
  table_pipe s f g = elim (place s f) [
    | none ↦ none
    | some (r, t) ↦ Option.map (λ (w, u). (r, w, u)) (place t g)
  ]

  abbrev pub table : Descriptors F
  table = record {
    State = ℕ → Option F;
    file_at = λ s j. s j;
    open_file = table_open;
    dup2 = table_dup2;
    close = λ s a. update s a none;
    pipe = table_pipe;
  }

  -- What an `open` that succeeds has found.
  opened :
      (s t : ℕ → Option F) (f : F) (fd : ℕ)
      → table_open s f ≡ some (fd, t)
      → (free_from s ≡ some fd) × (t ≡ update s fd (some f))
  opened s t f fd e = elim (Option-cases (free_from s)) [
    | inl full ↦ absurd (ground arith)
    | inr (k, found) ↦ (ground arith, ground arith)
  ]

  copied : (s t : ℕ → Option F) (a b : ℕ) → table_dup2 s a b ≡ some t → t ≡ update s b (s a)
  copied s t a b e = ground arith

  placed :
      (s t : ℕ → Option F) (f : F) (fd : ℕ)
      → place s f ≡ some (fd, t)
      → (s fd ≡ none) × (t ≡ update s fd (some f))
  placed s t f fd e = elim (Option-cases (free_from s)) [
    | inl full ↦ absurd (ground arith)
    | inr (k, found) ↦
        let free = (find_from-some (λ i. is_free (s i)) limit 0 k found).passes in
        (ground arith, ground arith)
  ]

  -- The two descriptors of a pipe, one after another.
  piped :
      (s t : ℕ → Option F) (f g : F) (r w : ℕ)
      → table_pipe s f g ≡ some (r, w, t)
      → (u : ℕ → Option F) × (place s f ≡ some (r, u)) × (place u g ≡ some (w, t))
  piped s t f g r w e = elim (Option-cases (place s f)) [
    | inl full ↦ absurd (ground arith)
    | inr ((fd, u), first) ↦ elim (Option-cases (place u g)) [
      | inl full ↦ absurd (ground arith)
      | inr ((fd', v), second) ↦ (u, ground arith, ground arith)
    ]
  ]

  pub table-IsPosix : IsPosix table
  table-IsPosix = record {
    open_free = λ s t f fd e.
        let found = find_from-some (λ i. is_free (s i)) limit 0 fd (opened s t f fd e).0 in
        ground (arith, found.passes);
    open_lowest = λ s t f fd j e below.
        let found = find_from-some (λ i. is_free (s i)) limit 0 fd (opened s t f fd e).0 in
        ground (arith, found.first j);
    file_at-open = λ s t f fd e j. rw ((opened s t f fd e).1);
    dup2_opened = λ s a b h low. (update s b (s a), ground arith);
    dup2_closed = λ s a b h. ground arith;
    file_at-dup2 = λ s t a b e j. rw (copied s t a b e);
    file_at-close = λ s a j. refl;
    pipe_free = λ s t f g r w e.
        let (u, first, second) = piped s t f g r w e in
        let (free, same) = placed s u f r first in
        let (free', same') = placed u t g w second in
        let at_w : u w ≡ update s r (some f) w = ap (λ (h : ℕ → Option F). h w) same in
        ground arith;
    file_at-pipe = λ s t f g r w e j.
        let (u, first, second) = piped s t f g r w e in
        let (free, same) = placed s u f r first in
        let (free', same') = placed u t g w second in
        let at_w : u w ≡ update s r (some f) w = ap (λ (h : ℕ → Option F). h w) same in
        let at_j : u j ≡ update s r (some f) j = ap (λ (h : ℕ → Option F). h j) same in
        let then_j : t j ≡ update u w (some g) j = ap (λ (h : ℕ → Option F). h j) same' in
        ground arith;
  }

  -- With a free descriptor a file that can be opened is opened.
  pub table_opens :
      (s : ℕ → Option F) (f : F) (j : ℕ)
      → j < limit
      → s j ≡ none
      → can_open f ≡ true
      → table_open s f ≢ none
  table_opens s f j below free can e = elim (Option-cases (free_from s)) [
    | inl full ↦
        let taken =
          find_from-none (λ i. is_free (s i)) limit 0 j full (omega arith) (omega arith) in
        ground arith
    | inr (k, found) ↦ ground arith
  ]
