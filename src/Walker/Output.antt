-- ===== src/Walker/Output.antt =====
-- What a run of ps2/main.c prints.
use ece.Base.{
  Bool, true, false, List, [], ◌∷◌, ◌++◌, Option, none, some, ◌≡◌, ◌↔◌, inl, inr, refl, sym, arith,
}
use mathlib.Core.List.{append_assoc}
use ece.Walker.Listing.{Text, Directory, with_slash, list_dir}
use ece.Walker.Paths.{Chain, path_of, Among, list_dir-Chain}
use ece.Walker.Stat.{Stat}
use ece.Walker.Print.{
  System, Printed, stat_failed, Printing, returned, exited, ◌>>◌, displayed, print_data,
}
use ece.Walker.Main.{Opt, Filters, read_options, print_all, starting_path, main}
use ece.Walker.Report.{
  paths_in, paths_in-append, Readable, passes, fails, Shown, none_left, shown, hidden, Good,
  print_all-Good, print_data-Good, print_data-quiet,
}

-- The entry's status can be read, and the filters pass it.
abbrev pub Passes : System → Filters → Text → Type 0
Passes sys f p =
    (sb : Stat) × (sys.lstat p ≡ some sb)
    × (displayed sys f.user_filter f.time_filter p sb ≡ some true)

abbrev pub Ready : System → Filters → Text → Type 0
Ready sys f p = (b : Bool) × Readable sys f p b

add-Shown :
    (sys : System) (f : Filters) (path : Text) (paths passing : List Text)
    → Shown sys f paths passing
    → (b : Bool) → Readable sys f path b
    → (l : List Text) × Shown sys f (path ∷ paths) l
add-Shown sys f path paths passing rest true r = (path ∷ passing, shown r rest)
add-Shown sys f path paths passing rest false r = (passing, hidden r rest)

all-Shown :
    (sys : System) (f : Filters) (paths : List Text)
    → ((p : Text) → Among p paths → Ready sys f p)
    → (passing : List Text) × Shown sys f paths passing
all-Shown sys f [] h = ([], none_left)
all-Shown sys f (path ∷ paths) h =
    let (passing, rest) = all-Shown sys f paths (λ p among. h p (inr among)) in
    let (b, r) = h path (inl refl) in add-Shown sys f path paths passing rest b r

Readable-Passes :
    {sys : System} {f : Filters} {path : Text} → Readable sys f path true → Passes sys f path
Readable-Passes (passes sb e p c) = (sb, e, p)

Readable-fails :
    {sys : System} {f : Filters} {path : Text} → Readable sys f path false → Passes sys f path → ⊥
Readable-fails (fails sb e p) (sb', e', p') =
    let same : sb ≡ sb' = ground (arith, e, e') in absurd (ground (arith, rw same at p, p'))

Shown-Among :
    {sys : System} {f : Filters} {paths passing : List Text} (p : Text)
    → Shown sys f paths passing
    → Among p passing
    → Among p paths × Passes sys f p
Shown-Among p none_left h = absurd h
Shown-Among p (shown r rest) (inl e) = (inl e, rw e (Readable-Passes r))
Shown-Among p (shown r rest) (inr h) = let (among, ok) = Shown-Among p rest h in (inr among, ok)
Shown-Among p (hidden r rest) h = let (among, ok) = Shown-Among p rest h in (inr among, ok)

Among-Shown :
    {sys : System} {f : Filters} {paths passing : List Text} (p : Text)
    → Shown sys f paths passing
    → Among p paths
    → Passes sys f p
    → Among p passing
Among-Shown p none_left h ok = absurd h
Among-Shown p (shown r rest) (inl e) ok = inl e
Among-Shown p (shown r rest) (inr h) ok = inr (Among-Shown p rest h ok)
Among-Shown p (hidden r rest) (inl e) ok = absurd (Readable-fails r (rw e at ok))
Among-Shown p (hidden r rest) (inr h) ok = Among-Shown p rest h ok

-- An outcome that has ended the program for an entry's status, with the paths printed before.
pub record Stopped (o : Printing) (l : List Text) : Type 0 where
  pub before : List Printed
  pub done : o.ending ≡ exited
  pub printed : o.printed ≡ before ++ (stat_failed ∷ [])
  pub named : paths_in before ≡ l

Good-Stopped :
    (a b : Printing) (k l : List Text) → Good a k → Stopped b l → Stopped (a >> b) (k ++ l)
Good-Stopped a b k l g h = record {
  before = a.printed ++ h.before;
  done = rw g.done h.done;
  printed = rw g.done (rw h.printed (sym (append_assoc a.printed h.before (stat_failed ∷ []))));
  named = rw (paths_in-append a.printed h.before, g.printed, h.named) refl;
}

print_all-Stopped :
    {sys : System} {f : Filters} {before passing : List Text} (bad : Text) (after : List Text)
    → Shown sys f before passing
    → sys.lstat bad ≡ none
    → Stopped (print_all sys f (before ++ (bad ∷ after))) passing
unfolding print_all print_data
print_all-Stopped bad after none_left gone =
    rw gone (record { before = []; done = refl; printed = refl; named = refl })
print_all-Stopped {sys} {f} bad after (shown {path} {paths} {passing} r h) gone =
    Good-Stopped _ _ (path ∷ []) passing (print_data-Good sys f path r)
      (print_all-Stopped bad after h gone)
print_all-Stopped {sys} {f} bad after (hidden {path} {paths} {passing} r h) gone =
    Good-Stopped _ _ [] passing (print_data-quiet sys f path r) (print_all-Stopped bad after h gone)

module _ (sys : System) (inside : Text → Directory) (left : Option Text) (opts : List Opt)
    (prog : Text) (args : List Text) (f : Filters)
    (options : read_options sys.atoi (record { user_filter = left; time_filter = none }) opts
      ≡ some f) where
  abbrev start : Text
  start = starting_path prog args

  -- Where the options are known, and each path that listDir comes to is that of an entry whose
  -- status can be read, and that the filters refuse, or that they pass and whose line can be
  -- printed: the program returns, and the paths it prints are those of the chains of names that are
  -- not hidden below the starting path, of entries that the filters pass.
  pub main_shows :
      ((p : Text) → Among p (list_dir start (inside start)) → Ready sys f p)
      → (p : Text)
      → let o = main sys inside left opts prog args in
        (o.ending ≡ returned)
        × (Among p (paths_in o.printed) ↔ (
            ((ns : List Text) × Chain (inside start) ns × (p ≡ path_of (with_slash start) ns))
            × Passes sys f p))
  unfolding main
  main_shows ready p =
      let paths = list_dir start (inside start) in
      let (passing, all) = all-Shown sys f paths ready in
      let good = print_all-Good all in
      let (there, back) = list_dir-Chain start (inside start) p in
      rw options (
        good.done,
        rw good.printed (
          λ h. (let (among, ok) = Shown-Among p all h in (there among, ok)),
          λ (chain, ok). Among-Shown p all (back chain) ok,
        ),
      )

  -- Where the options are known, and the status of an entry cannot be read, while for all entries
  -- before it in the order of listDir it can, and the filters refuse them or their lines can be
  -- printed: the program ends there with 1, and has printed the paths of those before it that the
  -- filters pass, and the message, at the end.
  pub main_stops :
      (before after passing : List Text) (bad : Text)
      → list_dir start (inside start) ≡ before ++ (bad ∷ after)
      → Shown sys f before passing
      → sys.lstat bad ≡ none
      → let o = main sys inside left opts prog args in
        (o.ending ≡ exited)
        × ((k : List Printed) × (o.printed ≡ k ++ (stat_failed ∷ [])) × (paths_in k ≡ passing))
  unfolding main
  main_stops before after passing bad split h gone =
      let stopped : Stopped (print_all sys f (list_dir start (inside start))) passing =
        rw split (print_all-Stopped bad after h gone) in
      rw options (stopped.done, (stopped.before, stopped.printed, stopped.named))
