-- ===== src/Walker/Stat.antt =====
-- What ps2/main.c prints of a file's mode, and the filters on its owner and time.
use ece.Base.{ℕ, ◌/◌, ◌%◌, Bool, true, ◌&&◌, List, [], ◌∷◌, Option, none, some, ◌==◌, if◌then◌else◌}
use ece.Base.Int.{ℤ, pos, ◌+ℤ◌, ◌-ℤ◌, ltb_ℤ, leb_ℤ, to_int}
use mathlib.Core.Option

-- The fields of `struct stat` that are tested or printed.
pub record Stat : Type 0 where
  pub st_dev : ℕ
  pub st_ino : ℕ
  pub st_mode : ℕ
  pub st_nlink : ℕ
  pub st_uid : ℕ
  pub st_gid : ℕ
  pub st_rdev : ℕ
  pub st_size : ℤ
  pub st_mtime : ℤ

-- `sb.st_mode & S_IFMT`, divided by its lowest bit: the four bits above the lowest twelve.
abbrev pub format_of : ℕ → ℕ
format_of mode = mode / 4096 % 16

-- The inner `switch` of `getType`.
abbrev pub rare_type : ℕ → ℕ
rare_type f =
    if f == 3
    then b'm'
    else if f == 5
    then b'n'
    else if f == 7
    then b'M'
    else if f == 9
    then b'C'
    else if f == 11
    then b's'
    else if f == 13
    then b'D'
    else if f == 15
    then b'w'
    else b'u'

-- The outer `switch` of `getType`. In units of the lowest bit, S_IFREG is 8, S_IFDIR 4, S_IFLNK 10,
-- S_IFCHR 2, S_IFBLK 6, S_IFIFO 1 and S_IFSOCK 12.
unfoldable pub type_of_format : ℕ → ℕ
type_of_format f =
    if f == 8
    then b'-'
    else if f == 4
    then b'd'
    else if f == 10
    then b'l'
    else if f == 2
    then b'c'
    else if f == 6
    then b'b'
    else if f == 1
    then b'p'
    else if f == 12
    then b's'
    else rare_type f

unfoldable pub get_type : ℕ → ℕ
get_type mode = type_of_format (format_of mode)

-- `if (val & bit) result[i] = c;`, over the `-` that stands there.
abbrev pub flag : ℕ → ℕ → ℕ → ℕ
flag val bit c = if val / bit % 2 == 1 then c else b'-'

-- `getPermissions`; the mask of `val` is 0777.
unfoldable pub get_permissions : ℕ → List ℕ
get_permissions mode =
    let val = mode % 512 in
    flag val 256 b'r'
    ∷ flag val 128 b'w'
    ∷ flag val 64 b'x'
    ∷ flag val 32 b'r'
    ∷ flag val 16 b'w'
    ∷ flag val 8 b'x'
    ∷ flag val 4 b'r'
    ∷ flag val 2 b'w'
    ∷ flag val 1 b'x'
    ∷ []

-- The user that `toDisplay` looks for: `atoi` gives the number of the filter's text, 0 if it is no
-- number, and `getpwnam` the uid of that name. `none` is a read through the null pointer that
-- `getpwnam` gives for an unknown name.
abbrev pub wanted_user {ℓ} : {Text : Type ℓ} → (Text → ℤ) → (Text → Option ℤ) → Text → Option ℤ
wanted_user atoi getpwnam user_filter =
    let user = atoi user_filter in
    if leb_ℤ user (pos 0) && leb_ℤ (pos 0) user then getpwnam user_filter else some user

abbrev pub same : ℤ → ℤ → Bool
same a b = leb_ℤ a b && leb_ℤ b a

-- The first part of `toDisplay`. `==` compares an `int` with an unsigned number, by their values
-- modulo 2 ^ 32: both are given here as the `int` of these bits.
unfoldable pub user_passes {ℓ} :
    {Text : Type ℓ} → (Text → ℤ) → (Text → Option ℤ) → Option Text → Stat → Option Bool
user_passes atoi getpwnam none sb = some true
user_passes atoi getpwnam (some user_filter) sb =
    Option.map (λ user. same (to_int user) (to_int (pos sb.st_uid)))
      (wanted_user atoi getpwnam user_filter)

-- The second part, at the time `now`.
unfoldable pub time_passes : ℤ → Option ℤ → Stat → Bool
time_passes now none sb = true
time_passes now (some utime) sb =
    if ltb_ℤ (pos 0) utime
    then ltb_ℤ (to_int sb.st_mtime) (to_int (now -ℤ utime))
    else if ltb_ℤ utime (pos 0)
    then ltb_ℤ (to_int (now +ℤ utime)) (to_int sb.st_mtime)
    else true

-- `toDisplay`.
unfoldable pub to_display {ℓ} :
    {Text : Type ℓ}
    → (Text → ℤ)
    → (Text → Option ℤ)
    → ℤ
    → Option Text
    → Option ℤ
    → Stat
    → Option Bool
to_display atoi getpwnam now user_filter time_filter sb =
    Option.map (λ proceed. proceed && time_passes now time_filter sb)
      (user_passes atoi getpwnam user_filter sb)
