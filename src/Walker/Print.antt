-- ===== src/Walker/Print.antt =====
-- What ps2/main.c prints of an entry, as the sequence of its calls of printf.
use ece.Base.{
  ℕ, Bool, true, false, ◌||◌, List, [], ◌∷◌, ◌++◌, Option, none, some, ◌==◌, if◌then◌else◌,
}
use ece.Base.Int.{ℤ, pos, ◌+ℤ◌, to_int}
use mathlib.Core.Option
use ece.Walker.Listing.{Text}
use ece.Walker.Stat.{Stat, get_type, get_permissions, to_display}

-- The fields of `struct tm` that are printed.
pub record Tm : Type 0 where
  pub tm_year : ℤ
  pub tm_mon : ℤ
  pub tm_mday : ℤ
  pub tm_hour : ℤ
  pub tm_min : ℤ
  pub tm_sec : ℤ

-- The system's answers. `none` is -1 or a null pointer, `decimal` is what sprintf writes for %d, and
-- `time` what time gives when the entry of a path is looked at; `stack` is what buf holds before
-- readlink, 256 bytes.
pub record System : Type 0 where
  pub atoi : Text → ℤ
  pub decimal : ℤ → Text
  pub lstat : Text → Option Stat
  pub readlink : Text → Option Text
  pub time : Text → ℤ
  pub localtime : ℤ → Option Tm
  pub getpwnam : Text → Option ℤ
  pub getpwuid : ℕ → Option Text
  pub getgrgid : ℕ → Option Text
  pub stack : Text → List ℕ

-- A call of printf, with the values that it is given. An argument of the conversion %d that is wider
-- than an `int` is taken for the `int` in its low 32 bits.
pub data Printed : Type 0 where
  stat_failed readlink_failed newline : Printed
  ids : (st_dev st_ino : ℤ) → Printed
  mode : ℕ → List ℕ → Printed
  links : ℤ → Printed
  user : Text → Printed
  group : Text → Printed
  device : ℤ → Printed
  size : ℤ → Printed
  modified : (year month day hour minute second : ℤ) → Printed
  name : Text → Printed
  target : Text → Printed

-- How the program goes on: `crashed` is an access through a pointer that is null or was never set, or
-- behind an array.
pub data Ending : Type 0 where
  returned exited crashed : Ending

pub record Printing : Type 0 where
  pub printed : List Printed
  pub ending : Ending

-- What comes after, where the first has returned.
abbrev pub followed : List Printed → Ending → Printing → Printing
followed before returned o = record { printed = before ++ o.printed; ending = o.ending }
followed before exited o = record { printed = before; ending = exited }
followed before crashed o = record { printed = before; ending = crashed }

infixr 5 ◌>>◌
abbrev pub ◌>>◌ : Printing → Printing → Printing
a >> b = followed a.printed a.ending b

abbrev pub say : List Printed → Printing
say l = record { printed = l; ending = returned }

abbrev pub stop : List Printed → Printing
stop l = record { printed = l; ending = exited }

abbrev pub crash : Printing
crash = record { printed = []; ending = crashed }

-- The text in an array, up to its first 0; `none` if there is no 0.
unfoldable pub string_in : List ℕ → Option Text
string_in [] = none
string_in (c ∷ bytes) =
    let rest = string_in bytes in if c == 0 then some [] else Option.map (λ t. c ∷ t) rest

-- A text that is written over the bytes of an array, as far as it goes.
unfoldable pub overwrite : Text → List ℕ → List ℕ
overwrite [] old = old
overwrite (c ∷ text) [] = []
overwrite (c ∷ text) (b ∷ old) = c ∷ overwrite text old

abbrev pub or_number : (ℤ → Text) → ℤ → Option Text → Text
or_number decimal n none = decimal n
or_number decimal n (some text) = text

-- `getUser`.
unfoldable pub get_user : System → Stat → Text
get_user sys sb = or_number sys.decimal (to_int (pos sb.st_uid)) (sys.getpwuid sb.st_uid)

-- `getGroup`: the number of an unknown group is written through a pointer that was never set.
abbrev pub get_group : System → Stat → Option Text
get_group sys sb = sys.getgrgid sb.st_gid

abbrev pub show_group : Option Text → Printing
show_group none = crash
show_group (some text) = say (group text ∷ [])

-- "Print size or raw device number".
unfoldable pub size_or_device : Stat → Printed
size_or_device sb =
    let type = get_type sb.st_mode in
    if (type == b'm') || (type == b'M')
    then device (to_int (pos sb.st_rdev))
    else size (to_int sb.st_size)

-- "Print last modification time".
abbrev pub show_time : Option Tm → Printing
show_time none = crash
show_time (some t) = say (
    modified (t.tm_year +ℤ pos 1900) (t.tm_mon +ℤ pos 1) t.tm_mday t.tm_hour t.tm_min t.tm_sec ∷ [])

abbrev pub show_target : Option Text → Printing
show_target none = crash
show_target (some text) = say (target text ∷ [])

-- "Print link contents if symlink": readlink writes no 0 behind what it gives.
abbrev pub show_link : List ℕ → Option Text → Printing
show_link old none = stop (readlink_failed ∷ [])
show_link old (some content) = show_target (string_in (overwrite content old))

-- The line of an entry.
unfoldable pub print_line : System → Text → Stat → Printing
print_line sys path sb =
    let type = get_type sb.st_mode in
    let link = show_link (sys.stack path) (sys.readlink path) in
    say (
      ids (to_int (pos sb.st_dev)) (to_int (pos sb.st_ino))
      ∷ mode type (get_permissions sb.st_mode)
      ∷ links (to_int (pos sb.st_nlink))
      ∷ user (get_user sys sb)
      ∷ [])
    >> show_group (get_group sys sb)
    >> say (size_or_device sb ∷ [])
    >> show_time (sys.localtime sb.st_mtime)
    >> say (name path ∷ [])
    >> (if type == b'l' then link else say [])
    >> say (newline ∷ [])

-- `if (!toDisplay(...)) return;`, where toDisplay itself may crash.
abbrev pub print_if : Option Bool → Printing → Printing
print_if none line = crash
print_if (some false) line = say []
print_if (some true) line = line

abbrev pub displayed : System → Option Text → Option ℤ → Text → Stat → Option Bool
displayed sys user_filter time_filter path sb =
    to_display sys.atoi sys.getpwnam (sys.time path) user_filter time_filter sb

abbrev pub print_entry : System → Option Text → Option ℤ → Text → Option Stat → Printing
print_entry sys user_filter time_filter path none = stop (stat_failed ∷ [])
print_entry sys user_filter time_filter path (some sb) =
    print_if (displayed sys user_filter time_filter path sb) (print_line sys path sb)

-- `printData`, from the call of lstat on.
unfoldable pub print_data : System → Option Text → Option ℤ → Text → Printing
print_data sys user_filter time_filter path =
    print_entry sys user_filter time_filter path (sys.lstat path)
