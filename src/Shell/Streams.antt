-- ===== src/Shell/Streams.antt =====
-- What the streams of a command of ps3/main.c are, when its child has applied the redirections.
use ece.Base.{
  ℕ, ◌<◌, ◌≡◌, ◌≢◌, inl, inr, List, [], ◌∷◌, Option, none, some, ◌==◌, if◌then◌else◌, Option-cases,
  arith, refl, ◌∙◌,
}
use ece.Posix.{Descriptors, IsPosix}
use ece.Shell.Command.{Text, Stream, stdin, stdout, stderr, Redirect, resolve}
use ece.Shell.Redirect.{resolve_iff}
use ece.Shell.Split.{AllRedirects}
use ece.Shell.Child.{number, Locals, ready, put_onto, apply_redirects}

module _ {F : Type 0} (file_of : Redirect → F) where
  -- What a redirection makes of the stream `j`, and all of them, one after another.
  abbrev pub redirected : Option Redirect → ℕ → Option F → Option F
  redirected none j f = f
  redirected (some r) j f = if number r.stream == j then some (file_of r) else f

  abbrev pub streams : List Text → ℕ → Option F → Option F
  streams [] j f = f
  streams (a ∷ args) j f = streams args j (redirected (resolve a) j f)

number-lt : (s : Stream) → number s < 3
number-lt stdin = omega arith
number-lt stdout = omega arith
number-lt stderr = omega arith

module _ {F : Type 0} (D : Descriptors F) where
  -- The three standard streams are open.
  abbrev pub Standard : D.State → Type 0
  Standard s = (j : ℕ) → j < 3 → D.file_at s j ≢ none

  -- What is free in `s` is free in `t`.
  abbrev pub StillFree : D.State → D.State → Type 0
  StillFree s t = (j : ℕ) → D.file_at s j ≡ none → D.file_at t j ≡ none

module _ {F : Type 0} (D : Descriptors F) (file_of : Redirect → F) where
  -- The files of the redirections can all be opened wherever those descriptors are free that are
  -- free in `s`.
  abbrev pub AllOpen : D.State → List Text → Type 0
  AllOpen s [] = Unit
  AllOpen s (a ∷ args) =
      ((t : D.State) (r : Redirect)
        → StillFree D s t
        → resolve a ≡ some r
        → D.open_file t (file_of r) ≢ none)
      × AllOpen s args

module _ {F : Type 0} (D : Descriptors F) (law : IsPosix D) (file_of : Redirect → F) where
  -- One redirection whose file is opened.
  round :
      (r : Redirect) (s t : D.State) (fd : ℕ)
      → Standard D s
      → D.open_file s (file_of r) ≡ some (fd, t)
      → (u : D.State) × (put_onto D fd (number r.stream) t ≡ some u)
        × ((j : ℕ) → D.file_at u j ≡ redirected file_of (some r) j (D.file_at s j))
  round r s t fd open_std e =
      let free = law.open_free s t (file_of r) fd e in
      let opened = law.file_at-open s t (file_of r) fd e in
      let open_now : D.file_at t fd ≢ none = ground (arith, opened fd) in
      let (u, dup) = law.dup2_opened t fd (number r.stream) open_now (number-lt r.stream) in
      (
        D.close u fd,
        rw (dup, put_onto),
        λ j. ground (
          arith,
          law.file_at-close u fd j,
          law.file_at-dup2 t u fd (number r.stream) dup j,
          opened j,
          opened fd,
          free,
          open_std (number r.stream),
          number-lt r.stream,
        ),
      )

  redirected-Standard :
      (r : Redirect) (s u : D.State)
      → Standard D s
      → ((j : ℕ) → D.file_at u j ≡ redirected file_of (some r) j (D.file_at s j))
      → Standard D u
  redirected-Standard r s u open_std each j below = ground (arith, each j, open_std j below)

  -- A list of redirections, each of which is one.
  redirects_cons :
      (a : Text) (args : List Text) (r : Redirect) (locals : Locals) (s t u : D.State) (fd : ℕ)
      → resolve a ≡ some r
      → D.open_file s (file_of r) ≡ some (fd, t)
      → put_onto D fd (number r.stream) t ≡ some u
      → apply_redirects D file_of (a ∷ args) locals s
        ≡ apply_redirects D file_of args (some (fd, number r.stream)) u
  unfolding apply_redirects
  redirects_cons a args r locals s t u fd h opened put = rw (h, opened, put, apply_redirects)

  redirected-StillFree :
      (r : Redirect) (s0 s u : D.State)
      → Standard D s
      → StillFree D s0 s
      → ((j : ℕ) → D.file_at u j ≡ redirected file_of (some r) j (D.file_at s j))
      → StillFree D s0 u
  redirected-StillFree r s0 s u std free each j h =
      ground (arith, each j, free j h, std j, number-lt r.stream)

  redirected_from :
      (s0 : D.State) (args : List Text) (locals : Locals) (s : D.State)
      → AllRedirects args
      → AllOpen D file_of s0 args
      → Standard D s
      → StillFree D s0 s
      → (t : D.State) × (apply_redirects D file_of args locals s ≡ ready t)
        × ((j : ℕ) → D.file_at t j ≡ streams file_of args j (D.file_at s j))
  unfolding apply_redirects
  redirected_from s0 [] locals s all opens std free = (s, refl, λ j. refl)
  redirected_from s0 (a ∷ args) locals s all opens std free = elim (Option-cases (resolve a)) [
    | inl missing ↦ absurd ((resolve_iff a).0 all.0 missing)
    | inr (r, found) ↦ elim (Option-cases (D.open_file s (file_of r))) [
      | inl refused ↦ absurd (opens.0 s r free found refused)
      | inr ((fd, t), opened) ↦
          let (u, put, each) = round r s t fd std opened in
          let (w, done, rest) =
            redirected_from s0 args (some (fd, number r.stream)) u all.1 opens.1
              (redirected-Standard r s u std each) (redirected-StillFree r s0 s u std free each) in
          (
            w,
            redirects_cons a args r locals s t u fd found opened put ∙ done,
            λ j. rest j ∙ rw (each j, found),
          )
    ]
  ]

  -- Where every argument is a redirection and every file can be opened, the child comes to `execvp`,
  -- and each of its streams is that of the last redirection of it, or what it was; no other
  -- descriptor has changed, and none is left open.
  pub streams_redirected :
      (args : List Text) (locals : Locals) (s : D.State)
      → AllRedirects args
      → AllOpen D file_of s args
      → Standard D s
      → (t : D.State) × (apply_redirects D file_of args locals s ≡ ready t)
        × ((j : ℕ) → D.file_at t j ≡ streams file_of args j (D.file_at s j))
  streams_redirected args locals s all opens std =
      redirected_from s args locals s all opens std (λ j h. h)

  -- A redirection, the only one, whose file can be opened, and whose stream is not open and is the
  -- lowest free descriptor, comes to `execvp` with that stream not open: `close(fd)` closes what
  -- `dup2` left in place.
  pub redirect_lost :
      (a : Text) (r : Redirect) (locals : Locals) (s : D.State)
      → resolve a ≡ some r
      → D.file_at s (number r.stream) ≡ none
      → ((j : ℕ) → j < number r.stream → D.file_at s j ≢ none)
      → D.open_file s (file_of r) ≢ none
      → (t : D.State) × (apply_redirects D file_of (a ∷ []) locals s ≡ ready t)
        × (D.file_at t (number r.stream) ≡ none)
  unfolding apply_redirects
  redirect_lost a r locals s found shut lower opens =
      elim (Option-cases (D.open_file s (file_of r))) [
        | inl refused ↦ absurd (opens refused)
        | inr ((fd, t), opened) ↦
            let free = law.open_free s t (file_of r) fd opened in
            let lowest = law.open_lowest s t (file_of r) fd (number r.stream) opened in
            let same : fd ≡ number r.stream = ground (arith, lower fd) in
            let holds = law.file_at-open s t (file_of r) fd opened fd in
            let open_now : D.file_at t fd ≢ none = ground arith in
            let (u, dup) = law.dup2_opened t fd (number r.stream) open_now (number-lt r.stream) in
            (
              D.close u fd,
              redirects_cons a [] r locals s t (D.close u fd) fd found opened (rw (dup, put_onto)),
              law.file_at-close u fd (number r.stream) ∙ ground arith,
            )
      ]
