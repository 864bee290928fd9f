-- ===== src/Walker/Report.antt =====
-- What ps2/main.c prints, by its paths.
use ece.Base.{
  ℕ, Bool, true, false, ◌||◌, List, [], ◌∷◌, ◌++◌, Option, some, ◌≡◌, inl, inr, Bool-cases, refl,
  ◌==◌, if◌then◌else◌, ap,
}
use ece.Base.Int.{pos, to_int}
use ece.Walker.Listing.{Text}
use ece.Walker.Stat.{Stat, get_permissions, get_type}
use ece.Walker.Print.{
  get_user, System, Tm, Printed, stat_failed, readlink_failed, newline, ids, mode, links, user,
  group, device, size, modified, name, target, Printing, returned, ◌>>◌, say, get_group, show_group,
  show_time, show_link, string_in, overwrite, size_or_device, print_line, displayed, print_data,
}
use ece.Walker.Main.{Filters, print_all}

-- The paths among what is printed.
abbrev pub paths_in : List Printed → List Text
paths_in [] = []
paths_in (name path ∷ l) = path ∷ paths_in l
paths_in (stat_failed ∷ l) = paths_in l
paths_in (readlink_failed ∷ l) = paths_in l
paths_in (newline ∷ l) = paths_in l
paths_in (ids d i ∷ l) = paths_in l
paths_in (mode c p ∷ l) = paths_in l
paths_in (links n ∷ l) = paths_in l
paths_in (user t ∷ l) = paths_in l
paths_in (group t ∷ l) = paths_in l
paths_in (device n ∷ l) = paths_in l
paths_in (size n ∷ l) = paths_in l
paths_in (modified a b c d e f ∷ l) = paths_in l
paths_in (target t ∷ l) = paths_in l

pub paths_in-append : (k l : List Printed) → paths_in (k ++ l) ≡ paths_in k ++ paths_in l
paths_in-append [] l = refl
paths_in-append (name path ∷ k) l = ap (λ (r : List Text). path ∷ r) (paths_in-append k l)
paths_in-append (stat_failed ∷ k) l = paths_in-append k l
paths_in-append (readlink_failed ∷ k) l = paths_in-append k l
paths_in-append (newline ∷ k) l = paths_in-append k l
paths_in-append (ids d i ∷ k) l = paths_in-append k l
paths_in-append (mode c p ∷ k) l = paths_in-append k l
paths_in-append (links n ∷ k) l = paths_in-append k l
paths_in-append (user t ∷ k) l = paths_in-append k l
paths_in-append (group t ∷ k) l = paths_in-append k l
paths_in-append (device n ∷ k) l = paths_in-append k l
paths_in-append (size n ∷ k) l = paths_in-append k l
paths_in-append (modified a b c d e f ∷ k) l = paths_in-append k l
paths_in-append (target t ∷ k) l = paths_in-append k l

-- What the line of an entry needs: its group, its time, and, if it is a link, its content, which the
-- array ends with a 0.
pub record Complete (sys : System) (path : Text) (sb : Stat) : Type 0 where
  pub owners : (text : Text) × (get_group sys sb ≡ some text)
  pub date : (t : Tm) × (sys.localtime sb.st_mtime ≡ some t)
  pub content :
      (get_type sb.st_mode == b'l') ≡ true
      → (text : Text) × (visible : Text) × (sys.readlink path ≡ some text)
        × (string_in (overwrite text (sys.stack path)) ≡ some visible)

-- An entry that the filters pass, whose line can be printed; or which they do not.
pub data Readable (sys : System) (f : Filters) (path : Text) : Bool → Type 0 where
  passes :
      (sb : Stat)
      → sys.lstat path ≡ some sb
      → displayed sys f.user_filter f.time_filter path sb ≡ some true
      → Complete sys path sb
      → Readable sys f path true
  fails :
      (sb : Stat)
      → sys.lstat path ≡ some sb
      → displayed sys f.user_filter f.time_filter path sb ≡ some false
      → Readable sys f path false

-- Entries, and those of them that pass.
pub data Shown (sys : System) (f : Filters) : List Text → List Text → Type 0 where
  none_left : Shown sys f [] []
  shown :
      {path : Text} {paths passing : List Text}
      → Readable sys f path true
      → Shown sys f paths passing
      → Shown sys f (path ∷ paths) (path ∷ passing)
  hidden :
      {path : Text} {paths passing : List Text}
      → Readable sys f path false
      → Shown sys f paths passing
      → Shown sys f (path ∷ paths) passing

-- An outcome that has returned, with the paths that it has printed.
pub record Good (o : Printing) (l : List Text) : Type 0 where
  pub done : o.ending ≡ returned
  pub printed : paths_in o.printed ≡ l

pub Good->> : (a b : Printing) (k l : List Text) → Good a k → Good b l → Good (a >> b) (k ++ l)
Good->> a b k l g h = record {
  done = rw g.done h.done;
  printed = rw g.done (rw (paths_in-append a.printed b.printed, g.printed, h.printed) refl);
}

show_group-Good : (o : Option Text) (text : Text) → o ≡ some text → Good (show_group o) []
show_group-Good o text e = rw e (record { done = refl; printed = refl })

show_time-Good : (o : Option Tm) (t : Tm) → o ≡ some t → Good (show_time o) []
show_time-Good o t e = rw e (record { done = refl; printed = refl })

show_link-Good :
    (old : List ℕ) (o : Option Text) (text visible : Text)
    → o ≡ some text
    → string_in (overwrite text old) ≡ some visible
    → Good (show_link old o) []
show_link-Good old o text visible e ends = rw e (rw ends (record { done = refl; printed = refl }))

link-Good :
    (sys : System) (path : Text) (sb : Stat)
    → Complete sys path sb
    → Good
        (if get_type sb.st_mode == b'l'
          then show_link (sys.stack path) (sys.readlink path)
          else say [])
        []
link-Good sys path sb c = elim (Bool-cases (get_type sb.st_mode == b'l')) [
  | inl link ↦
      let (text, visible, e, ends) = c.content link in
      rw link (show_link-Good (sys.stack path) (sys.readlink path) text visible e ends)
  | inr other ↦ rw other (record { done = refl; printed = refl })
]

size_or_device-Good : (sb : Stat) → Good (say (size_or_device sb ∷ [])) []
unfolding size_or_device
size_or_device-Good sb =
    elim (Bool-cases ((get_type sb.st_mode == b'm') || (get_type sb.st_mode == b'M'))) [
      | inl special ↦ rw special (record { done = refl; printed = refl })
      | inr plain ↦ rw plain (record { done = refl; printed = refl })
    ]

print_line-Good :
    (sys : System) (path : Text) (sb : Stat)
    → Complete sys path sb
    → Good (print_line sys path sb) (path ∷ [])
unfolding print_line
print_line-Good sys path sb c =
    let (text, owner) = c.owners in
    let (t, date) = c.date in
    let quiet : Good (say (newline ∷ [])) [] = record { done = refl; printed = refl } in
    let head =
      ids (to_int (pos sb.st_dev)) (to_int (pos sb.st_ino))
      ∷ mode (get_type sb.st_mode) (get_permissions sb.st_mode)
      ∷ links (to_int (pos sb.st_nlink))
      ∷ user (get_user sys sb)
      ∷ [] in
    Good->> (say head) _ [] _ (record { done = refl; printed = refl })
      (Good->> _ _ [] _ (show_group-Good _ text owner) (
        Good->> _ _ [] _ (size_or_device-Good sb) (
          Good->> _ _ [] _ (show_time-Good _ t date) (
            Good->> (say (name path ∷ [])) _ (path ∷ []) _ (record { done = refl; printed = refl })
              (Good->> _ _ [] _ (link-Good sys path sb c) quiet)))))

pub print_data-Good :
    (sys : System) (f : Filters) (path : Text)
    → Readable sys f path true
    → Good (print_data sys f.user_filter f.time_filter path) (path ∷ [])
unfolding print_data
print_data-Good sys f path (passes sb e p c) = rw (e, p) (print_line-Good sys path sb c)

pub print_data-quiet :
    (sys : System) (f : Filters) (path : Text)
    → Readable sys f path false
    → Good (print_data sys f.user_filter f.time_filter path) []
unfolding print_data
print_data-quiet sys f path (fails sb e p) = rw (e, p) (record { done = refl; printed = refl })

pub print_all-Good :
    {sys : System} {f : Filters} {paths passing : List Text}
    → Shown sys f paths passing
    → Good (print_all sys f paths) passing
unfolding print_all
print_all-Good none_left = record { done = refl; printed = refl }
print_all-Good {sys} {f} (shown {path} {paths} {passing} r h) =
    Good->> _ _ (path ∷ []) passing (print_data-Good sys f path r) (print_all-Good h)
print_all-Good {sys} {f} (hidden {path} {paths} {passing} r h) =
    Good->> _ _ [] passing (print_data-quiet sys f path r) (print_all-Good h)
