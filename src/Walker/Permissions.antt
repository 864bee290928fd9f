-- ===== src/Walker/Permissions.antt =====
-- What the first column of ps2/main.c says of a file's mode.
use ece.Base.{
  ap, ℕ, ◌*◌, ◌+◌, ◌%◌, ◌/◌, ◌≡◌, refl, true, false, List, [], ◌∷◌, ◌==◌, ==→≡, if◌then◌else◌,
  all_below, all_below_sound, arith,
}
use ece.Walker.Stat.{format_of, type_of_format, flag, get_type, get_permissions}

-- The number whose binary digits are the letters, a `-` for 0.
abbrev pub value_from : ℕ → List ℕ → ℕ
value_from acc [] = acc
value_from acc (c ∷ cs) = value_from (acc * 2 + (if c == b'-' then 0 else 1)) cs

value_step :
    (acc val bit c : ℕ) (cs : List ℕ)
    → (c == b'-') ≡ false
    → value_from acc (flag val bit c ∷ cs) ≡ value_from (acc * 2 + val / bit % 2) cs
value_step acc val bit c cs letter = ap (λ (n : ℕ). value_from (acc * 2 + n) cs) (ground arith)

-- The permission bits can be read back from the nine letters.
pub value-get_permissions : (mode : ℕ) → value_from 0 (get_permissions mode) ≡ mode % 512
unfolding get_permissions
value-get_permissions mode =
    let v = mode % 512 in
    rw
      (
        value_step _ v 256 b'r' _ refl,
        value_step _ v 128 b'w' _ refl,
        value_step _ v 64 b'x' _ refl,
        value_step _ v 32 b'r' _ refl,
        value_step _ v 16 b'w' _ refl,
        value_step _ v 8 b'x' _ refl,
        value_step _ v 4 b'r' _ refl,
        value_step _ v 2 b'w' _ refl,
        value_step _ v 1 b'x' _ refl,
      )
      (omega arith)

-- The format that a letter stands for: of sockets and shadow inodes, which share one, the second,
-- and of the two that have none, 0.
abbrev pub format_from : ℕ → ℕ
format_from c =
    if c == b'p'
    then 1
    else if c == b'c'
    then 2
    else if c == b'm'
    then 3
    else if c == b'd'
    then 4
    else if c == b'n'
    then 5
    else if c == b'b'
    then 6
    else if c == b'M'
    then 7
    else if c == b'-'
    then 8
    else if c == b'C'
    then 9
    else if c == b'l'
    then 10
    else if c == b's'
    then 11
    else if c == b'D'
    then 13
    else if c == b'w'
    then 15
    else 0

abbrev pub merged : ℕ → ℕ
merged f = if f == 12 then 11 else if f == 14 then 0 else f

type_table : all_below 16 (λ f. format_from (type_of_format f) == merged f) ≡ true
unfolding all_below type_of_format
type_table = refl

-- The format of a file can be read back from its letter, but for sockets (12), which have the letter
-- of shadow inodes (11), and for 14, which has that of 0.
pub format-get_type : (mode : ℕ) → format_from (get_type mode) ≡ merged (format_of mode)
unfolding get_type
format-get_type mode = ==→≡ _ _ (
    all_below_sound 16 (λ f. format_from (type_of_format f) == merged f) (format_of mode) type_table
      (omega arith))
