-- ===== src/Walker/Examples.antt =====
-- Files as ps2/main.c shows them, and its theorems at them.
use ece.Base.{
  ℕ, zero, suc, ◌≡◌, ◌↔◌, refl, true, false, Option, some, none, [], ◌∷◌, arith, ◌+◌, ◌*◌,
}
use ece.Base.Int.{ℤ, pos}
use ece.Walker.Stat.{Stat, get_permissions, to_display}
use ece.Walker.Listing.{Directory, finish, entry, list_entries, list_dir}
use ece.Walker.Filter.{OwnerFits, TimeFits, to_display_iff}

-- A regular file with the permissions 0644, of the user 1000 and the time 5000.
abbrev a_file : Stat
a_file = record {
  st_dev = 1;
  st_ino = 2;
  st_mode = 8 * 4096 + 420;
  st_nlink = 1;
  st_uid = 1000;
  st_gid = 100;
  st_rdev = 0;
  st_size = pos 12;
  st_mtime = pos 5000;
}

a_file_permissions :
    get_permissions a_file.st_mode
    ≡ b'r' ∷ b'w' ∷ b'-' ∷ b'r' ∷ b'-' ∷ b'-' ∷ b'r' ∷ b'-' ∷ b'-' ∷ []
unfolding get_permissions
a_file_permissions = refl

-- Names of users are the numbers 0 and 1 here: `atoi` reads neither, and 0 has the uid 1000.
abbrev atoi : ℕ → ℤ
atoi text = pos 0

abbrev getpwnam : ℕ → Option ℤ
getpwnam zero = some (pos 1000)
getpwnam (suc n) = none

to_display_iff_example :
    (to_display atoi getpwnam (pos 9000) (some 0) (some (pos 600)) a_file ≡ some true)
    ↔ (OwnerFits atoi getpwnam (some 0) a_file × TimeFits 9000 (some (pos 600)) 5000)
to_display_iff_example =
    to_display_iff atoi getpwnam 9000 (some 0) (some (pos 600)) a_file 5000 (omega arith)
      (omega arith) (omega arith) refl

-- The directory `d` has a file `f`; behind it is a hidden directory with a file.
abbrev tree : Directory
tree =
    entry (b'd' ∷ []) true (entry (b'f' ∷ []) false finish finish)
      (entry (b'.' ∷ b'g' ∷ []) true (entry (b'f' ∷ []) false finish finish) finish)

tree_listed : list_dir (b'/' ∷ []) tree ≡ (b'/' ∷ b'd' ∷ b'/' ∷ b'f' ∷ []) ∷ (b'/' ∷ b'd' ∷ []) ∷ []
unfolding list_dir list_entries
tree_listed = refl
