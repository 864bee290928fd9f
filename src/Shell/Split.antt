-- ===== src/Shell/Split.antt =====
-- How ps3/main.c divides the arguments between the command and the redirections.
use mathlib.Core.List.{append-nil}
use ece.Base.{
  ◌⊎◌, inl, inr, ℕ, zero, suc, Option, none, some, ◌<◌, ◌≤◌, ◌≡◌, refl, ap, true, false, List, [],
  ◌∷◌, ◌++◌, length, arith,
}
use ece.Shell.Command.{
  Text, is_redirect, get_command_arg_count, get_redirect_arg_count, Malloc, entries, copy,
  fill_array, both_arrays, behind, split_args,
}

-- None of the arguments is a redirection; all of them are.
abbrev pub AllWords : List Text → Type 0
AllWords [] = Unit
AllWords (a ∷ args) = (is_redirect a ≡ false) × AllWords args

abbrev pub AllRedirects : List Text → Type 0
AllRedirects [] = Unit
AllRedirects (a ∷ args) = (is_redirect a ≡ true) × AllRedirects args

count-redirects :
    (rs : List Text)
    → AllRedirects rs
    → (get_command_arg_count rs ≡ 0) × (get_redirect_arg_count rs ≡ length rs)
unfolding get_command_arg_count get_redirect_arg_count
count-redirects [] h = (refl, refl)
count-redirects (r ∷ rs) h = ground (arith, count-redirects rs h.1)

count-words :
    (ws rs : List Text)
    → AllWords ws
    → AllRedirects rs
    → (get_command_arg_count (ws ++ rs) ≡ length ws)
      × (get_redirect_arg_count (ws ++ rs) ≡ length rs)
unfolding get_command_arg_count get_redirect_arg_count
count-words [] rs h k = count-redirects rs k
count-words (w ∷ ws) rs h k = ground (arith, count-words ws rs h.1 k)

-- An array with room for all that is written to it.
copy-entries :
    (junk : Text) (space : ℕ) (ws rest : List Text)
    → length ws < space
    → (l : List Text) × (copy junk space (suc (length ws)) (ws ++ rest) ≡ some l)
      × (entries (length ws) l ≡ ws)
unfolding copy
copy-entries junk zero ws rest h = absurd (omega arith)
copy-entries junk (suc space) [] [] h = (junk ∷ [], refl, refl)
copy-entries junk (suc space) [] (a ∷ rest) h = (a ∷ [], refl, refl)
copy-entries junk (suc space) (w ∷ ws) rest h =
    let (l, fills, same) = copy-entries junk space ws rest (omega arith) in
    (w ∷ l, rw fills refl, ap (λ (k : List Text). w ∷ k) same)

-- An array with too little room.
pub copy-overruns :
    (junk : Text) (space rounds : ℕ) (args : List Text)
    → space < rounds
    → copy junk space rounds args ≡ none
unfolding copy
copy-overruns junk space zero args h = absurd (omega arith)
copy-overruns junk zero (suc n) args h = refl
copy-overruns junk (suc space) (suc n) [] h = rw (copy-overruns junk space n [] (omega arith)) refl
copy-overruns junk (suc space) (suc n) (a ∷ args) h =
    rw (copy-overruns junk space n args (omega arith)) refl

behind-append : (ws rs : List Text) → behind (length ws) (ws ++ rs) ≡ rs
behind-append [] rs = refl
behind-append (w ∷ ws) rs = behind-append ws rs

-- Room for one entry more than was asked for, if any was.
abbrev pub HasRoom : Malloc → List Text → Type 0
HasRoom room [] = Unit
HasRoom room (w ∷ ws) = length (w ∷ ws) < room (length (w ∷ ws))

fill_array-entries :
    (room : Malloc) (junk : Text) (ws rest : List Text)
    → HasRoom room ws
    → (l : List Text) × (fill_array room junk (length ws) (ws ++ rest) ≡ some l)
      × (entries (length ws) l ≡ ws)
fill_array-entries room junk [] rest h = ([], refl, refl)
fill_array-entries room junk (w ∷ ws) rest h =
    copy-entries junk (room (length (w ∷ ws))) (w ∷ ws) rest h

-- Where all redirections come after the words, and there is room, the words are the command's
-- arguments and the others the redirections.
pub split_args_lem :
    (room : Malloc) (junk : Text) (ws rs : List Text)
    → AllWords ws
    → AllRedirects rs
    → HasRoom room ws
    → HasRoom room rs
    → split_args room junk (ws ++ rs) ≡ some (record { command_args = ws; redirect_args = rs })
unfolding split_args
split_args_lem room junk ws rs h k roomy roomy' =
    let (words, others) = count-words ws rs h k in
    let (l, fills, same) = fill_array-entries room junk ws rs roomy in
    let (l', fills', same') = fill_array-entries room junk rs [] roomy' in
    let whole : rs ++ [] ≡ rs = append-nil rs in
    let fills'' : fill_array room junk (length rs) rs ≡ some l' = rw whole at fills' in
    rw (words, others, behind-append, fills, fills'', same, same') refl

-- An array for these, of which there are some, with no more room than was asked for.
abbrev pub IsTight : Malloc → List Text → Type 0
IsTight room [] = ⊥
IsTight room (w ∷ ws) = room (length (w ∷ ws)) ≤ length (w ∷ ws)

fill_array-overruns :
    (room : Malloc) (junk : Text) (ws args : List Text)
    → IsTight room ws
    → fill_array room junk (length ws) args ≡ none
fill_array-overruns room junk [] args h = absurd h
fill_array-overruns room junk (w ∷ ws) args h =
    copy-overruns junk (room (length (w ∷ ws))) (suc (length (w ∷ ws))) args (omega arith)

-- One array without its value spoils both.
no_redirects : (c r : ℕ) (words : Option (List Text)) → both_arrays c r words none ≡ none
no_redirects c r none = refl
no_redirects c r (some words) = refl

pub split_args-overruns :
    (room : Malloc) (junk : Text) (ws rs : List Text)
    → AllWords ws
    → AllRedirects rs
    → IsTight room ws ⊎ IsTight room rs
    → split_args room junk (ws ++ rs) ≡ none
unfolding split_args
split_args-overruns room junk ws rs h k (inl tight) =
    let (words, others) = count-words ws rs h k in
    let spoilt = fill_array-overruns room junk ws (ws ++ rs) tight in
    rw (words, others, spoilt) refl
split_args-overruns room junk ws rs h k (inr tight) =
    let (words, others) = count-words ws rs h k in
    let spoilt = fill_array-overruns room junk rs rs tight in
    rw (words, others, behind-append, spoilt)
      (no_redirects (length ws) (length rs) (fill_array room junk (length ws) (ws ++ rs)))
