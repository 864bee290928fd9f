-- ===== src/Mmap/Questions.antt =====
-- The questions A to F of ps5/main.c.
use ece.Base.{ℕ, zero, suc, ◌+◌, ◌%◌, Bool, true, false, List, [], ◌∷◌, Option, none, some, ◌==◌}
use ece.Mmap.Calls.{Calls, Sharing, shared}

-- What comes of a call: a value, the end by `exit(1)`, or a signal.
pub data Result (A : Type 0) : Type 0 where
  ok : A → Result A
  exits signal : Result A

-- `buf[0]`, which is `junk` if nothing was read.
abbrev pub buf_0 : ℕ → List ℕ → ℕ
buf_0 junk [] = junk
buf_0 junk (c ∷ bytes) = c

-- "this is a test".
abbrev pub test_text : List ℕ
test_text =
    b't' ∷ b'h' ∷ b'i' ∷ b's' ∷ b' ' ∷ b'i' ∷ b's' ∷ b' ' ∷ b'a' ∷ b' ' ∷ b't' ∷ b'e' ∷ b's' ∷ b't'
    ∷ []

abbrev pub num_bytes : ℕ
num_bytes = 4100

-- `'A' + (random() % 26)`.
abbrev pub random_char : ℕ → ℕ
random_char r = b'A' + r % 26

abbrev pub M : Type 0 → Type 0 → Type 0
M S A = S → Result (A × S)

abbrev pub pure : {S A : Type 0} → A → M S A
pure a s = ok (a, s)

infixl 5 ◌>>=◌ ◌>>◌
abbrev pub ◌>>=◌ : {S A B : Type 0} → M S A → (A → M S B) → M S B
◌>>=◌ m f s = elim (m s) [ ok (a, t) ↦ f a t | exits ↦ exits | signal ↦ signal ]

abbrev pub ◌>>◌ : {S B : Type 0} → M S (Unit {0}) → M S B → M S B
m >> k = m >>= λ _. k

-- A call after which -1 is tested for, and an access that a signal may end.
abbrev pub call : {S : Type 0} → (S → Option S) → M S (Unit {0})
call f s = elim (f s) [ none ↦ exits | some t ↦ ok (tt, t) ]

abbrev pub touch : {S : Type 0} → (S → Option S) → M S (Unit {0})
touch f s = elim (f s) [ none ↦ signal | some t ↦ ok (tt, t) ]

-- A call whose failure is not noticed: whether it has succeeded.
abbrev pub attempt : {S : Type 0} → (S → Option S) → M S Bool
attempt f s = elim (f s) [ none ↦ ok (false, s) | some t ↦ ok (true, t) ]

module _ (O : Calls) where
  abbrev pub stat : M O.State ℕ
  stat s = elim (O.fstat s) [ none ↦ exits | some n ↦ ok (n, s) ]

  abbrev pub get : ℕ → M O.State (List ℕ)
  get n s = elim (O.read n s) [ none ↦ exits | some r ↦ ok r ]

  abbrev pub load : ℕ → M O.State ℕ
  load j s = elim (O.page s j) [ none ↦ signal | some c ↦ ok (c, s) ]

  -- Question B, with a shared mapping, and C, with a private one: `true` is "The update is visible".
  -- `mmap` is tested for an address below 0, which there is not, so where it fails the assignment
  -- through the address -1 is a signal.
  unfoldable pub update_visible : Sharing → (junk : ℕ) → M O.State Bool
  update_visible how junk = do
    call O.create
    call (O.write test_text)
    n ← stat
    touch (O.mmap how n)
    touch (O.store 0 b'h')
    touch (O.store 1 0)
    call (O.seek_set 0)
    bytes ← get 1
    c ← load 0
    call O.close
    pure (buf_0 junk bytes == c)

  -- The loop that writes the test file: `random i` is what the `i`th call gives.
  unfoldable pub fill : (ℕ → ℕ) → (rounds i : ℕ) → M O.State (Unit {0})
  fill random zero i = pure tt
  fill random (suc rounds) i = do
    call (O.write (random_char (random i) ∷ []))
    fill random rounds (i + 1)

  -- The four bytes behind the end of the file.
  abbrev pub add_bytes : ℕ → M O.State (Unit {0})
  add_bytes n = do
    touch (O.store (n + 1) b'T')
    touch (O.store (n + 2) b'E')
    touch (O.store (n + 3) b'S')
    touch (O.store (n + 4) b'T')

  -- Question D: the two sizes that are printed.
  unfoldable pub sizes : (ℕ → ℕ) → M O.State (ℕ × ℕ)
  unfolding fill
  sizes random = do
    call O.create
    fill random num_bytes 0
    n ← stat
    call (O.mmap shared n)
    add_bytes n
    m ← stat
    call O.close
    pure (n, m)

  -- Question E: `true` is "The inserted data is still there after the creation of a hole".
  unfoldable pub still_there : (ℕ → ℕ) → M O.State Bool
  unfolding fill
  still_there random = do
    call O.create
    fill random num_bytes 0
    n ← stat
    call (O.mmap shared n)
    add_bytes n
    call (O.seek_end 100)
    c ← load (n + 4)
    call O.close
    pure (c == b'T')

  -- An assignment through the address that `mmap` has given, which is -1 where it has failed: there is
  -- nothing at that address.
  abbrev pub assign : (mapped : Bool) → ℕ → ℕ → M O.State (Unit {0})
  assign true j v s = touch (O.store j v) s
  assign false j v s = signal

  -- Question A. That `mmap` failed is not noticed: it is tested for an address below 0.
  unfoldable pub read_only : M O.State (Unit {0})
  read_only = do
    call O.create
    n ← stat
    mapped ← attempt (O.mmap_read_only n)
    call O.close
    assign mapped 0 b't'
    assign mapped 1 b'e'
    assign mapped 2 b's'
    assign mapped 3 b't'
    assign mapped 4 0

  -- Question F: the byte that is printed. Here, too, that mmap failed is not noticed.
  unfoldable pub first_page : (ℕ → ℕ) → M O.State ℕ
  unfolding fill
  first_page random = do
    call O.create
    fill random 10 0
    touch (O.mmap shared 8192)
    c ← load 1000
    call O.close
    pure c
