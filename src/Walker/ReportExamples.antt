-- ===== src/Walker/ReportExamples.antt =====
-- A run of ps2/main.c on a small directory, and the theorems of its output at it.
use ece.Base.{
  ℕ, ◌≡◌, ◌↔◌, refl, true, false, some, none, List, [], ◌∷◌, ◌++◌, length, get_elem?, arith, ◌*◌,
  ◌+◌, inl, inr, ◌==◌, if◌then◌else◌,
}
use ece.Base.Int.{pos, to_int, ◌-ℤ◌}
use ece.Walker.Stat.{Stat, get_type, type_of_format, to_display, user_passes, time_passes}
use ece.Walker.Listing.{Text, Directory, finish, entry, with_slash, list_entries, list_dir}
use ece.Walker.Paths.{Among, Chain, path_of}
use ece.Walker.Print.{System, Printed, stat_failed, returned, exited, target, say, show_link}
use ece.Walker.Main.{Opt, m, Filters, read_options, main}
use ece.Walker.Report.{paths_in, Complete, Readable, passes, fails, Shown, none_left, shown}
use ece.Walker.Output.{Passes, Ready, main_shows, main_stops}
use ece.Walker.Line.{show_link-exact}

-- The path `/`; the directory `d` is in it, with the file `f`.
abbrev root : Text
root = b'/' ∷ []

abbrev tree : Directory
tree = entry (b'd' ∷ []) true (entry (b'f' ∷ []) false finish finish) finish

abbrev path_d : Text
path_d = b'/' ∷ b'd' ∷ []

abbrev path_f : Text
path_f = b'/' ∷ b'd' ∷ b'/' ∷ b'f' ∷ []

abbrev status : ℕ → ℕ → Stat
status format time = record {
  st_dev = 1;
  st_ino = 2;
  st_mode = format * 4096 + 420;
  st_nlink = 1;
  st_uid = 1000;
  st_gid = 100;
  st_rdev = 5;
  st_size = pos 12;
  st_mtime = pos time;
}

-- Only `f` is older than ten minutes.
abbrev sys : System
sys = record {
  atoi = λ text. pos 600;
  decimal = λ n. [];
  lstat = λ p. if length p == 2 then some (status 4 8900) else some (status 8 5000);
  readlink = λ p. none;
  time = λ p. pos 9000;
  localtime = λ t. some (record {
    tm_year = pos 70;
    tm_mon = pos 0;
    tm_mday = pos 1;
    tm_hour = pos 2;
    tm_min = pos 23;
    tm_sec = pos 20;
  });
  getpwnam = λ text. none;
  getpwuid = λ uid. none;
  getgrgid = λ gid. some (b'g' ∷ []);
  stack = λ p. [];
}

abbrev opts : List Opt
opts = m [] ∷ []

abbrev filters : Filters
filters = record { user_filter = none; time_filter = some (pos 600) }

read : read_options sys.atoi (record { user_filter = none; time_filter = none }) opts ≡ some filters
unfolding read_options
read = refl

f-Complete : Complete sys path_f (status 8 5000)
unfolding get_type type_of_format
f-Complete = record { owners = (b'g' ∷ [], refl); date = (_, refl); content = λ link. ground arith }

f-Readable : Readable sys filters path_f true
unfolding to_display user_passes time_passes to_int ◌-ℤ◌
f-Readable = passes (status 8 5000) refl refl f-Complete

d-Readable : Readable sys filters path_d false
unfolding to_display user_passes time_passes to_int ◌-ℤ◌
d-Readable = fails (status 4 8900) refl refl

all-Ready : (p : Text) → Among p (list_dir root tree) → Ready sys filters p
unfolding list_dir list_entries
all-Ready p (inl e) = rw e (true, f-Readable)
all-Ready p (inr (inl e)) = rw e (false, d-Readable)
all-Ready p (inr (inr h)) = absurd h

main_shows_example :
    let o = main sys (λ p. tree) none opts [] (root ∷ []) in
    (o.ending ≡ returned)
    × (Among path_f (paths_in o.printed) ↔ (
        ((ns : List Text) × Chain tree ns × (path_f ≡ path_of (with_slash root) ns))
        × Passes sys filters path_f))
main_shows_example =
    main_shows sys (λ p. tree) none opts [] (root ∷ []) filters read all-Ready path_f

-- The same, but that the status of `d` cannot be read.
abbrev sys_gone : System
sys_gone = record sys { lstat = λ p. if length p == 2 then none else some (status 8 5000) }

f-Shown : Shown sys_gone filters (path_f ∷ []) (path_f ∷ [])
unfolding to_display user_passes time_passes to_int ◌-ℤ◌ get_type type_of_format
f-Shown =
    shown
      (passes (status 8 5000) refl refl
        (record { owners = (b'g' ∷ [], refl); date = (_, refl); content = λ link. ground arith }))
      none_left

listed : list_dir root tree ≡ (path_f ∷ []) ++ (path_d ∷ [])
unfolding list_dir list_entries
listed = refl

main_stops_example :
    let o = main sys_gone (λ p. tree) none opts [] (root ∷ []) in
    (o.ending ≡ exited)
    × ((k : List Printed) × (o.printed ≡ k ++ (stat_failed ∷ [])) × (paths_in k ≡ path_f ∷ []))
main_stops_example =
    main_stops sys_gone (λ p. tree) none opts [] (root ∷ []) filters read (path_f ∷ []) []
      (path_f ∷ []) path_d listed f-Shown refl

-- A link's content, and an array with two bytes.
abbrev content : Text
content = b'f' ∷ []

abbrev old : List ℕ
old = b'x' ∷ b'y' ∷ []

show_link-exact_example :
    (show_link old (some content) ≡ say (target content ∷ []))
    ↔ (get_elem? old (length content) ≡ some 0)
show_link-exact_example = show_link-exact content old (omega arith, tt)
