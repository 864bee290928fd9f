-- ===== src/Shell/Redirect.antt =====
-- The redirections that ps3/main.c counts and those that it resolves.
use ece.Base.{◌≡◌, ◌≢◌, ◌↔◌, true, none, some, arith}
use ece.Shell.Command.{Text, is_redirect, Redirect, stderr, truncate, resolve, char_at, skip}

-- The child resolves exactly the arguments that are counted as redirections, so that no descriptor
-- is used before it is opened.
pub resolve_iff : (a : Text) → (is_redirect a ≡ true) ↔ (resolve a ≢ none)
unfolding resolve
resolve_iff a = (λ h. ground arith, λ h. ground arith)

-- What the child resolves an argument to is on its standard error exactly if the argument begins
-- with `2>`, the mode is to truncate, and the file is named by all that follows the two characters:
-- so `2>>file` does not append to `file` but truncates the file `>file`.
pub resolve_stderr :
    (a : Text) (r : Redirect)
    → resolve a ≡ some r
    → (r.stream ≡ stderr)
      ↔ ((char_at a 0 ≡ b'2') × (char_at a 1 ≡ b'>') × (r.mode ≡ truncate) × (r.file ≡ skip 2 a))
unfolding resolve
resolve_stderr a r h = (λ e. ground arith, λ e. ground arith)
