-- ===== src/Walker/Paths.antt =====
-- Which paths ps2/main.c comes to, described by the chains of names that lead to them.
use ece.Base.{
  Bool, true, false, if◌then◌else◌, List, [], ◌∷◌, ◌++◌, ◌≡◌, ◌⊎◌, ◌↔◌, inl, inr, refl, Bool-cases,
}
use ece.Walker.Listing.{
  Text, Directory, finish, entry, is_hidden, with_slash, list_entries, list_dir,
}

-- `names` lead from a directory to an entry below it, through directories, no name being hidden.
pub data Chain : Directory → List Text → Type 0 where
  here :
      {name : Text} {is_dir : Bool} {inside rest : Directory}
      → is_hidden name ≡ false
      → Chain (entry name is_dir inside rest) (name ∷ [])
  into :
      {name next : Text} {names : List Text} {inside rest : Directory}
      → is_hidden name ≡ false
      → Chain inside (next ∷ names)
      → Chain (entry name true inside rest) (name ∷ next ∷ names)
  later :
      {name : Text} {is_dir : Bool} {inside rest : Directory} {names : List Text}
      → Chain rest names
      → Chain (entry name is_dir inside rest) names

-- The path of a chain: a slash is put behind each name but the last, if it does not end in one.
abbrev pub path_of : Text → List Text → Text
path_of path [] = path
path_of path (name ∷ []) = path ++ name
path_of path (name ∷ next ∷ names) = path_of (with_slash (path ++ name)) (next ∷ names)

-- One of a list.
abbrev pub Among : Text → List Text → Type 0
Among p [] = ⊥
Among p (q ∷ l) = (p ≡ q) ⊎ Among p l

Among-left : (p : Text) (l k : List Text) → Among p l → Among p (l ++ k)
Among-left p [] k h = absurd h
Among-left p (q ∷ l) k (inl e) = inl e
Among-left p (q ∷ l) k (inr h) = inr (Among-left p l k h)

Among-right : (p : Text) (l k : List Text) → Among p k → Among p (l ++ k)
Among-right p [] k h = h
Among-right p (q ∷ l) k h = inr (Among-right p l k h)

Among-append : (p : Text) (l k : List Text) → Among p (l ++ k) → Among p l ⊎ Among p k
Among-append p [] k h = inr h
Among-append p (q ∷ l) k (inl e) = inl (inl e)
Among-append p (q ∷ l) k (inr h) = elim (Among-append p l k h) [
  | inl left ↦ inl (inr left)
  | inr right ↦ inr right
]

-- A chain has a first name.
Chain-cons :
    {dir : Directory} {names : List Text}
    → Chain dir names
    → (first : Text) × (others : List Text) × (names ≡ first ∷ others)
Chain-cons (here {name} shown) = (name, [], refl)
Chain-cons (into {name} {next} {names} shown c) = (name, next ∷ names, refl)
Chain-cons (later c) = Chain-cons c

abbrev Listed : Text → Directory → Text → Type 0
Listed path dir p = (names : List Text) × Chain dir names × (p ≡ path_of path names)

-- A path below a directory of this one.
from_inside :
    (path name : Text) (inside rest : Directory) (p : Text)
    → is_hidden name ≡ false
    → Listed (with_slash (path ++ name)) inside p
    → Listed path (entry name true inside rest) p
from_inside path name inside rest p shown ([], c, e) =
    let (first, others, e') = Chain-cons c in absurd cc
from_inside path name inside rest p shown (first ∷ others, c, e) =
    (name ∷ first ∷ others, into shown c, e)

-- A path further on in this one.
from_rest :
    (path name : Text) (is_dir : Bool) (inside rest : Directory) (p : Text)
    → Listed path rest p
    → Listed path (entry name is_dir inside rest) p
from_rest path name is_dir inside rest p (names, c, e) = (names, later c, e)

-- What is listed of the inside of an entry, and what behind that.
abbrev inner : Text → Text → Bool → Directory → List Text
inner path name is_dir inside =
    if is_dir then list_entries (with_slash (path ++ name)) inside else []

abbrev outer : Text → Text → Directory → List Text
outer path name rest = (path ++ name) ∷ list_entries path rest

inner-Chain :
    (path name : Text) (is_dir : Bool) (inside rest : Directory) (p : Text)
    → is_hidden name ≡ false
    → (Among p (list_entries (with_slash (path ++ name)) inside)
        → Listed (with_slash (path ++ name)) inside p)
    → Among p (inner path name is_dir inside)
    → Listed path (entry name is_dir inside rest) p
inner-Chain path name true inside rest p shown below h =
    from_inside path name inside rest p shown (below h)
inner-Chain path name false inside rest p shown below h = absurd h

-- Every path listed is that of a chain.
Among-Chain :
    (path : Text) (dir : Directory) (p : Text) → Among p (list_entries path dir) → Listed path dir p
unfolding list_entries
Among-Chain path finish p h = absurd h
Among-Chain path (entry name is_dir inside rest) p h = elim (Bool-cases (is_hidden name)) [
  | inl hidden ↦ from_rest path name is_dir inside rest p (Among-Chain path rest p (rw hidden at h))
  | inr shown ↦
      elim (Among-append p (inner path name is_dir inside) (outer path name rest) (rw shown at h)) [
        | inl below ↦
            inner-Chain path name is_dir inside rest p shown
              (Among-Chain (with_slash (path ++ name)) inside p) below
        | inr (inl e) ↦ (name ∷ [], here shown, e)
        | inr (inr others) ↦
            from_rest path name is_dir inside rest p (Among-Chain path rest p others)
      ]
]

-- Every chain is listed.
Chain-Among :
    {dir : Directory} {names : List Text} (path : Text)
    → Chain dir names
    → Among (path_of path names) (list_entries path dir)
unfolding list_entries
Chain-Among path (here {name} {is_dir} {inside} {rest} shown) =
    rw shown
      (Among-right (path ++ name) (inner path name is_dir inside) (outer path name rest) (inl refl))
Chain-Among path (into {name} {next} {names} {inside} {rest} shown c) = rw shown (
    Among-left (path_of (with_slash (path ++ name)) (next ∷ names)) (inner path name true inside)
      (outer path name rest) (Chain-Among (with_slash (path ++ name)) c))
Chain-Among path (later {name} {is_dir} {inside} {rest} {names} c) =
    let found = Chain-Among path c in
    elim (Bool-cases (is_hidden name)) [
      | inl hidden ↦ rw hidden found
      | inr shown ↦ rw shown (
          Among-right (path_of path names) (inner path name is_dir inside) (outer path name rest)
            (inr found))
    ]

-- `listDir` comes to exactly the paths that are the starting path, a slash where it has none at its
-- end, and the names of a chain from the directory there: each but the last is that of a directory,
-- none begins with a dot, and a slash is put behind each but the last that does not end in one.
pub list_dir-Chain :
    (path : Text) (dir : Directory) (p : Text)
    → Among p (list_dir path dir)
      ↔ ((names : List Text) × Chain dir names × (p ≡ path_of (with_slash path) names))
unfolding list_dir
list_dir-Chain path dir p =
    (Among-Chain (with_slash path) dir p, λ (names, c, e). rw e (Chain-Among (with_slash path) c))
