-- ===== src/Cat/CommandLine.antt =====
-- Command lines of ps1/main.c whose options stand before the files.
use ece.Base.{
  ℕ, zero, suc, ◌+◌, ◌*◌, ◌<◌, ◌≡◌, ◌∙◌, ap, refl, false, List, [], ◌∷◌, map, length, get_elem?,
  Option, some, arith,
}
use ece.Base.Int.{ℤ}
use ece.Cat.Options.{
  Text, equal, dash, dash_o, dash_b, Options, no_options, set_outfile, set_buffer_size, get_options,
  get_inputs, names,
}
use ece.Cat.Shift.{get_inputs_lem}

pub data Choice : Type 0 where
  to_file of_size : (text : Text) → Choice

-- How options are written, and what they ask for, one after another.
abbrev pub render : List Choice → List Text → List Text
render [] files = files
render (to_file text ∷ choices) files = dash_o ∷ text ∷ render choices files
render (of_size text ∷ choices) files = dash_b ∷ text ∷ render choices files

abbrev pub apply : (Text → ℤ) → List Choice → Options → Options
apply atoi [] o = o
apply atoi (to_file text ∷ choices) o = apply atoi choices (set_outfile (some text) o)
apply atoi (of_size text ∷ choices) o = apply atoi choices (set_buffer_size (atoi text) o)

-- None of the arguments is an option.
abbrev pub ArePlain : List Text → Type 0
ArePlain [] = Unit
ArePlain (a ∷ args) = (equal a dash_o ≡ false) × (equal a dash_b ≡ false) × ArePlain args

-- The standard input stands for no files.
abbrev pub or_dash : List Text → List Text
or_dash [] = dash ∷ []
or_dash (f ∷ files) = f ∷ files

get_options-plain :
    (atoi : Text → ℤ) (files : List Text) (o : Options)
    → ArePlain files
    → get_options atoi files o ≡ some o
unfolding get_options
get_options-plain atoi [] o h = refl
get_options-plain atoi (a ∷ []) o h = rw (h.0, h.1)
get_options-plain atoi (a ∷ b ∷ files) o h =
    rw (h.0, h.1) (get_options-plain atoi (b ∷ files) o h.2)

get_options-render :
    (atoi : Text → ℤ) (choices : List Choice) (files : List Text) (o : Options)
    → ArePlain files
    → get_options atoi (render choices files) o ≡ some (apply atoi choices o)
unfolding get_options
get_options-render atoi [] files o h = get_options-plain atoi files o h
get_options-render atoi (to_file text ∷ choices) files o h =
    get_options-render atoi choices files (set_outfile (some text) o) h
get_options-render atoi (of_size text ∷ choices) files o h =
    get_options-render atoi choices files (set_buffer_size (atoi text) o) h

get_options-skip :
    (atoi : Text → ℤ) (a : Text) (args : List Text) (o : Options)
    → equal a dash_o ≡ false
    → equal a dash_b ≡ false
    → get_options atoi (a ∷ args) o ≡ get_options atoi args o
unfolding get_options
get_options-skip atoi a [] o h k = rw (h, k)
get_options-skip atoi a (b ∷ args) o h k = rw (h, k)

length-render :
    (choices : List Choice) (files : List Text)
    → length (render choices files) ≡ 2 * length choices + length files
length-render [] files = omega arith
length-render (to_file text ∷ choices) files = omega (arith, length-render choices files)
length-render (of_size text ∷ choices) files = omega (arith, length-render choices files)

num-apply :
    (atoi : Text → ℤ) (choices : List Choice) (o : Options)
    → (apply atoi choices o).num_to_remove ≡ o.num_to_remove + 2 * length choices
num-apply atoi [] o = omega arith
num-apply atoi (to_file text ∷ choices) o =
    omega (arith, num-apply atoi choices (set_outfile (some text) o))
num-apply atoi (of_size text ∷ choices) o =
    omega (arith, num-apply atoi choices (set_buffer_size (atoi text) o))

get_elem?-render :
    (choices : List Choice) (files : List Text) (j k : ℕ)
    → k ≡ j + 2 * length choices
    → get_elem? (render choices files) k ≡ get_elem? files j
get_elem?-render [] files j k e = ap (get_elem? files) (omega arith)
get_elem?-render (c ∷ choices) files j zero e = absurd (omega arith)
get_elem?-render (c ∷ choices) files j (suc zero) e = absurd (omega arith)
get_elem?-render (to_file text ∷ choices) files j (suc (suc k)) e =
    get_elem?-render choices files j k (omega arith)
get_elem?-render (of_size text ∷ choices) files j (suc (suc k)) e =
    get_elem?-render choices files j k (omega arith)

get_elem?-args :
    (prog : Text) (choices : List Choice) (files : List Text) (j k : ℕ)
    → k ≡ j + (1 + 2 * length choices)
    → get_elem? (prog ∷ render choices files) k ≡ get_elem? files j
get_elem?-args prog choices files j zero e = absurd (omega arith)
get_elem?-args prog choices files j (suc k) e = get_elem?-render choices files j k (omega arith)

pub names-elements :
    (l : List Text) (i : ℕ) (files : ℕ → Option Text)
    → ((j : ℕ) → j < length l → files (i + j) ≡ get_elem? l j)
    → names (length l) i files ≡ map some l
unfolding names
names-elements [] i files h = refl
names-elements (a ∷ l) i files h =
    let here : files i ≡ some a = ap files (omega arith) ∙ h 0 (omega arith) in
    let rest =
      names-elements l (i + 1) files
        (λ j below. ap files (omega arith) ∙ h (suc j) (omega arith)) in
    rw (here, rest)

inputs-args :
    (prog : Text) (choices : List Choice) (files : List Text) (o : Options)
    → o.num_to_remove ≡ 1 + 2 * length choices
    → ((get_inputs o (prog ∷ render choices files)).num_input_files ≡ length (or_dash files))
      × ((j : ℕ)
          → j < length (or_dash files)
          → (get_inputs o (prog ∷ render choices files)).input_files j
            ≡ get_elem? (or_dash files) j)
unfolding get_inputs
inputs-args prog choices [] o e =
    let size = length-render choices [] in
    (
      ground (arith, size),
      λ j below. let first : j ≡ 0 = omega arith in rw first (ground (arith, size)),
    )
inputs-args prog choices (f ∷ files) o e =
    let size = length-render choices (f ∷ files) in
    (
      ground (arith, size),
      λ j below.
          get_inputs_lem o (prog ∷ render choices (f ∷ files)) j (omega arith) (omega (arith, size))
          ∙ get_elem?-args prog choices (f ∷ files) j (j + o.num_to_remove) (omega arith),
    )

-- Where the name of the program and the files are no options, and the options stand between them,
-- each option is read, the last of a kind being the one that counts, and the names to copy are
-- exactly the files, in this order, or the standard input if there are none.
pub get_options-get_inputs :
    (atoi : Text → ℤ) (prog : Text) (choices : List Choice) (files : List Text)
    → ArePlain (prog ∷ files)
    → let args = prog ∷ render choices files in
      let o = apply atoi choices no_options in
      let inputs = get_inputs o args in
      (get_options atoi args no_options ≡ some o)
      × (names inputs.num_input_files 0 inputs.input_files ≡ map some (or_dash files))
get_options-get_inputs atoi prog choices files h =
    let o = apply atoi choices no_options in
    let (number, each) = inputs-args prog choices files o (num-apply atoi choices no_options) in
    let inputs = get_inputs o (prog ∷ render choices files) in
    (
      get_options-skip atoi prog (render choices files) no_options h.0 h.1
          ∙ get_options-render atoi choices files no_options h.2,
      ap (λ (n : ℕ). names n 0 inputs.input_files) number
          ∙ names-elements (or_dash files) 0 inputs.input_files
              (λ j below. ap inputs.input_files (omega arith) ∙ each j below),
    )
