-- ===== src/Posix/Input.antt =====
-- What programs read and write: texts, the results of `read`, and those of `write`.
use ece.Base.{ℕ, zero, suc, ◌≡◌, refl, ap, List, [], ◌∷◌, ◌++◌, length, Option, none, some}

-- A text is the list of its bytes, without the final 0.
abbrev pub Text : Type 0
Text = List ℕ

-- What the calls of `read` on a descriptor come to give: `none` is a failure, no bytes the end.
abbrev pub Reads : Type 0
Reads = List (Option Text)

-- The first `n` bytes.
abbrev pub first : ℕ → Text → Text
first zero bytes = []
first (suc n) [] = []
first (suc n) (c ∷ bytes) = c ∷ first n bytes

-- The bytes that can be read up to the end or a failure, and what is behind that.
abbrev pub content : Reads → Text
content [] = []
content (none ∷ reads) = []
content (some [] ∷ reads) = []
content (some (c ∷ bytes) ∷ reads) = c ∷ bytes ++ content reads

abbrev pub behind : Reads → Reads
behind [] = []
behind (none ∷ reads) = reads
behind (some [] ∷ reads) = reads
behind (some (c ∷ bytes) ∷ reads) = behind reads

-- No call of `read` fails.
abbrev pub NoFailure : Reads → Type 0
NoFailure [] = Unit
NoFailure (none ∷ reads) = ⊥
NoFailure (some bytes ∷ reads) = NoFailure reads

-- Every `write` takes all it is given.
abbrev pub TakesAll : (Text → Text → Option ℕ) → Type 0
TakesAll accept = (out bytes : Text) → accept out bytes ≡ some (length bytes)

-- What `first` leaves is what is missing.
pub first-Beginning : (n : ℕ) (bytes : Text) → (rest : Text) × (first n bytes ++ rest ≡ bytes)
first-Beginning zero bytes = (bytes, refl)
first-Beginning (suc n) [] = ([], refl)
first-Beginning (suc n) (c ∷ bytes) =
    let (rest, e) = first-Beginning n bytes in (rest, ap (λ (l : Text). c ∷ l) e)

pub first-length : (bytes : Text) → first (length bytes) bytes ≡ bytes
first-length [] = refl
first-length (c ∷ bytes) = ap (λ (l : Text). c ∷ l) (first-length bytes)
