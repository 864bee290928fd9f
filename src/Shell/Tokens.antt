-- ===== src/Shell/Tokens.antt =====
-- `getArguments` of ps3/main.c undoes the writing of arguments on a line.
use ece.Base.{ℕ, ◌≡◌, ◌≢◌, refl, sym, ap, ◌∙◌, false, Bool-cases, inl, inr, List, [], ◌∷◌, ◌++◌}
use mathlib.Core.List.{append-nil, append_assoc}
use ece.Shell.Command.{Text, is_delimiter, emit, tokens, chop, get_arguments}

-- A text that is not empty and holds neither a blank nor a tab.
abbrev pub NoDelimiter : Text → Type 0
NoDelimiter [] = Unit
NoDelimiter (c ∷ a) = (is_delimiter c ≡ false) × NoDelimiter a

abbrev pub IsWord : Text → Type 0
IsWord a = (a ≢ []) × NoDelimiter a

abbrev pub AllAreWords : List Text → Type 0
AllAreWords [] = Unit
AllAreWords (a ∷ args) = IsWord a × AllAreWords args

-- Arguments with a blank between each two.
abbrev pub join : List Text → Text
join [] = []
join (a ∷ []) = a
join (a ∷ b ∷ args) = a ++ (32 ∷ join (b ∷ args))

tokens-word :
    (token a line : Text) → NoDelimiter a → tokens token (a ++ line) ≡ tokens (token ++ a) line
unfolding tokens
tokens-word token [] line h = rw append-nil
tokens-word token (c ∷ a) line h =
    rw (h.0) (tokens-word (token ++ (c ∷ [])) a line h.1 ∙ rw append_assoc)

emit-word : (a : Text) (rest : List Text) → a ≢ [] → emit a rest ≡ a ∷ rest
emit-word [] rest h = absurd (h refl)
emit-word (c ∷ a) rest h = refl

tokens-end : (a : Text) → tokens a [] ≡ emit a []
unfolding tokens
tokens-end a = refl

tokens-blank : (a line : Text) → tokens a (32 ∷ line) ≡ emit a (tokens [] line)
unfolding tokens
tokens-blank a line = refl

tokens-join : (args : List Text) → AllAreWords args → tokens [] (join args) ≡ args
tokens-join [] h = tokens-end []
tokens-join (a ∷ []) h =
    ap (tokens []) (sym (append-nil a))
    ∙ tokens-word [] a [] h.0.1
    ∙ tokens-end a
    ∙ emit-word a [] h.0.0
tokens-join (a ∷ b ∷ args) h =
    tokens-word [] a (32 ∷ join (b ∷ args)) h.0.1
    ∙ tokens-blank a (join (b ∷ args))
    ∙ emit-word a (tokens [] (join (b ∷ args))) h.0.0
    ∙ ap (λ (l : List Text). a ∷ l) (tokens-join (b ∷ args) h.1)

chop-append : (line : Text) (c : ℕ) → chop (line ++ (c ∷ [])) ≡ line
chop-append [] c = refl
chop-append (d ∷ []) c = refl
chop-append (d ∷ e ∷ line) c = ap (λ (l : Text). d ∷ l) (chop-append (e ∷ line) c)

-- The arguments of a line that holds words, with blanks between them and a newline at its end, are
-- these words.
pub get_arguments-join :
    (args : List Text) → AllAreWords args → get_arguments (join args ++ (10 ∷ [])) ≡ args
unfolding get_arguments
get_arguments-join args h = rw chop-append (tokens-join args h)

NoDelimiter-append :
    (t : Text) (c : ℕ) → NoDelimiter t → is_delimiter c ≡ false → NoDelimiter (t ++ (c ∷ []))
NoDelimiter-append [] c h k = (k, tt)
NoDelimiter-append (d ∷ t) c h k = (h.0, NoDelimiter-append t c h.1 k)

emit-AllAreWords :
    (t : Text) (rest : List Text) → NoDelimiter t → AllAreWords rest → AllAreWords (emit t rest)
emit-AllAreWords [] rest h k = k
emit-AllAreWords (c ∷ t) rest h k = ((λ e. cc, h), k)

tokens-AllAreWords : (token line : Text) → NoDelimiter token → AllAreWords (tokens token line)
unfolding tokens
tokens-AllAreWords token [] h = emit-AllAreWords token [] h tt
tokens-AllAreWords token (c ∷ line) h = elim (Bool-cases (is_delimiter c)) [
  | inl blank ↦ rw blank (emit-AllAreWords token (tokens [] line) h (tokens-AllAreWords [] line tt))
  | inr other ↦
      rw other (tokens-AllAreWords (token ++ (c ∷ [])) line (NoDelimiter-append token c h other))
]

-- The arguments of any line are words.
pub get_arguments-AllAreWords : (line : Text) → AllAreWords (get_arguments line)
unfolding get_arguments
get_arguments-AllAreWords line = tokens-AllAreWords [] (chop line) tt
