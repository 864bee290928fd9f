-- ===== src/Shell/Examples.antt =====
-- A redirection of the shell that is read otherwise than it was meant.
use ece.Base.{◌≡◌, refl, some}
use ece.Shell.Command.{Redirect, stderr, truncate, resolve}
use ece.Shell.Announce.{text}

appended : Redirect
appended = record { stream = stderr; mode = truncate; file = text ">err" }

appended_lem : resolve (text "2>>err") ≡ some appended
unfolding resolve appended
appended_lem = refl
