-- ===== src/Shell/Announce.antt =====
-- The line that ps3/main.c prints before it executes a command.
use Prim.Native.Char.{code}
use Prim.Native.String.{String}
use mathlib.Core.List.{append-nil, append_assoc}
use ece.Base.{
  Bool, true, false, ◌≡◌, refl, sym, ap, ◌∙◌, List, [], ◌∷◌, ◌++◌, Option, none, some,
  if◌then◌else◌,
}
use ece.Shell.Command.{Text, Command}

abbrev pub text : String → Text
text String.[] = []
text (String.◌∷◌ c s) = code c ∷ text s

abbrev pub comma : Text
comma = text ", "

-- The loop over `commandArgs` from 1 on; `more` says that there are redirections.
unfoldable pub print_words : Bool → List Text → Text
print_words more [] = []
print_words more (a ∷ []) = a ++ (if more then comma else [])
print_words more (a ∷ b ∷ args) = a ++ (comma ++ print_words more (b ∷ args))

-- The loop over `redirectArgs`.
unfoldable pub print_redirects : List Text → Text
print_redirects [] = []
print_redirects (a ∷ []) = a
print_redirects (a ∷ b ∷ args) = a ++ (comma ++ print_redirects (b ∷ args))

abbrev pub is_some : List Text → Bool
is_some [] = false
is_some (a ∷ args) = true

abbrev pub tail : List Text → List Text
tail [] = []
tail (a ∷ args) = args

-- The `printf`s before the child is forked; `none` is a read through `args`, which is null where
-- the line has no argument.
unfoldable pub announce : List Text → Command → Option Text
unfolding print_words print_redirects
announce [] c = none
announce (name ∷ args) c = some (
    text "Executing command "
    ++ (name
        ++ (text " with arguments \""
            ++ (print_words (is_some c.redirect_args) (tail c.command_args)
                ++ (print_redirects c.redirect_args ++ text "\"\n")))))

-- Texts with a comma between each two.
abbrev pub listing : List Text → Text
listing [] = []
listing (a ∷ []) = a
listing (a ∷ b ∷ args) = a ++ (comma ++ listing (b ∷ args))

print_redirects-listing : (args : List Text) → print_redirects args ≡ listing args
unfolding print_redirects
print_redirects-listing [] = refl
print_redirects-listing (a ∷ []) = refl
print_redirects-listing (a ∷ b ∷ args) =
    ap (λ (l : Text). a ++ (comma ++ l)) (print_redirects-listing (b ∷ args))

prints-listing :
    (ws rs : List Text) → print_words (is_some rs) ws ++ print_redirects rs ≡ listing (ws ++ rs)
unfolding print_words print_redirects
prints-listing [] rs = print_redirects-listing rs
prints-listing (a ∷ []) [] = append-nil (a ++ []) ∙ append-nil a
prints-listing (a ∷ []) (r ∷ rs) =
    append_assoc a comma (print_redirects (r ∷ rs))
    ∙ ap (λ (l : Text). a ++ (comma ++ l)) (print_redirects-listing (r ∷ rs))
prints-listing (a ∷ b ∷ ws) rs =
    append_assoc a (comma ++ print_words (is_some rs) (b ∷ ws)) (print_redirects rs)
    ∙ ap (λ (l : Text). a ++ (comma ++ l)) (prints-listing (b ∷ ws) rs)

-- For a command with a word, the printed line names it and lists its arguments and redirections, in
-- their order and with a comma between each two.
pub announce_lem :
    (name : Text) (args ws rs : List Text)
    → announce (name ∷ args) (record { command_args = name ∷ ws; redirect_args = rs })
      ≡ some (
          text "Executing command "
          ++ (name ++ (text " with arguments \"" ++ (listing (ws ++ rs) ++ text "\"\n"))))
unfolding announce
announce_lem name args ws rs =
    let same =
      sym (append_assoc (print_words (is_some rs) ws) (print_redirects rs) (text "\"\n"))
      ∙ ap (λ (l : Text). l ++ text "\"\n") (prints-listing ws rs) in
    ap
      (λ (l : Text). some (text "Executing command " ++ (name ++ (text " with arguments \"" ++ l))))
      same
