-- ===== src/Shell/Script.antt =====
-- The loop of main in ps3/main.c over the lines of a script.
use ece.Base.{ℕ, ◌≡◌, false, List, [], ◌∷◌, ◌++◌, Option, none, some, ◌==◌, refl, sym, ap, ◌∙◌}
use mathlib.Core.List.{append-nil, append_assoc}
use ece.Base.Int.{ℤ}
use ece.Posix.{Descriptors}
use ece.Shell.Command.{
  Text, Redirect, Malloc, char_at, get_arguments, split_args, get_command_arg_count,
  get_redirect_arg_count,
}
use ece.Shell.Announce.{announce}
use ece.Shell.Parent.{Turn, Summary, parent_side}
use ece.Shell.Run.{Report, ignored, corrupts, crashed, ran, process_line}

-- What the shell prints, and how it goes on: `corrupt` says that it has written behind an array.
pub data Said : Type 0 where
  announced : Text → Said
  summed_up : Summary → Said

pub data Going : Type 0 where
  on exit_1 crash corrupt : Going

pub record Session : Type 0 where
  pub said : List Said
  pub going : Going

abbrev pub after_parent : Text → Option Summary → Session
after_parent line none = record { said = announced line ∷ []; going = exit_1 }
after_parent line (some s) = record { said = announced line ∷ summed_up s ∷ []; going = on }

-- The shell's part of a line.
abbrev pub session_of : {S : Type 0} → (ℕ → ℤ) → Turn → Report S → Session
session_of wexitstatus turn ignored = record { said = []; going = on }
session_of wexitstatus turn corrupts = record { said = []; going = corrupt }
session_of wexitstatus turn crashed = record { said = []; going = crash }
session_of wexitstatus turn (ran line child) = after_parent line (parent_side wexitstatus turn)

abbrev pub then_go : List Said → Going → Session → Session
then_go said on rest = record { said = said ++ rest.said; going = rest.going }
then_go said exit_1 rest = record { said = said; going = exit_1 }
then_go said crash rest = record { said = said; going = crash }
then_go said corrupt rest = record { said = said; going = corrupt }

abbrev pub followed_by : Session → Session → Session
followed_by a b = then_go a.said a.going b

then_go-append :
    (said said' : List Said) (b : Going) (c : Session)
    → then_go (said ++ said') b c
      ≡ record { said = said ++ (then_go said' b c).said; going = (then_go said' b c).going }
then_go-append said said' on c =
    ap (λ (l : List Said). record { said = l; going = c.going }) (append_assoc said said' c.said)
then_go-append said said' exit_1 c = refl
then_go-append said said' crash c = refl
then_go-append said said' corrupt c = refl

followed_by_assoc :
    (said : List Said) (a : Going) (b c : Session)
    → then_go said a (followed_by b c) ≡ followed_by (then_go said a b) c
followed_by_assoc said on b c = sym (then_go-append said b.said b.going c)
followed_by_assoc said exit_1 b c = refl
followed_by_assoc said crash b c = refl
followed_by_assoc said corrupt b c = refl

module _ {F : Type 0} (room : Malloc) (junk : Text) (D : Descriptors F) (file_of : Redirect → F)
    (wexitstatus : ℕ → ℤ) where
  abbrev pub session : D.State → Text → Turn → Session
  session s line turn = session_of wexitstatus turn (process_line room junk D file_of line s)

  -- The loop, on the lines that getline gives, with what the calls of each line give.
  unfoldable pub run_script : D.State → List (Text × Turn) → Session
  run_script s [] = record { said = []; going = on }
  run_script s ((line, turn) ∷ lines) =
      let rest = run_script s lines in followed_by (session s line turn) rest

  run_script-append :
      (s : D.State) (before after : List (Text × Turn))
      → run_script s (before ++ after) ≡ followed_by (run_script s before) (run_script s after)
  unfolding run_script
  run_script-append s [] after = refl
  run_script-append s ((line, turn) ∷ before) after =
      let here = session s line turn in
      ap (λ (r : Session). followed_by here r) (run_script-append s before after)
      ∙ followed_by_assoc here.said here.going (run_script s before) (run_script s after)

  -- A line with no argument that does not begin with #, as an empty one, ends the shell, if it comes to it:
  -- the lines behind it are not run, and what has been said before is all.
  pub blank_line_ends :
      (s : D.State) (before after : List (Text × Turn)) (line : Text) (turn : Turn)
      → (run_script s before).going ≡ on
      → get_arguments line ≡ []
      → (char_at line 0 == b'#') ≡ false
      → run_script s (before ++ ((line, turn) ∷ after))
        ≡ record { said = (run_script s before).said; going = crash }
  unfolding run_script process_line announce split_args get_command_arg_count get_redirect_arg_count
  blank_line_ends s before after line turn goes blank no_comment =
      run_script-append s before ((line, turn) ∷ after)
      ∙ rw (goes, no_comment, blank)
          (ap (λ (l : List Said). record { said = l; going = crash })
            (append-nil (run_script s before).said))
