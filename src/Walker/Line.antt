-- ===== src/Walker/Line.antt =====
-- Two parts of a line of ps2/main.c: the content of a link, and the size or number of a device.
use ece.Base.{
  ℕ, Bool, true, ◌||◌, List, [], ◌∷◌, length, get_elem?, some, ◌≡◌, ◌≢◌, ◌↔◌, ◌⊎◌, inl, inr, refl,
  Bool-cases, Option-cases, ◌==◌, if◌then◌else◌, arith, all_below, all_below_sound, not,
}
use ece.Base.Int.{ℤ, pos, to_int}
use ece.Walker.Listing.{Text}
use ece.Walker.Stat.{Stat, format_of, type_of_format, get_type}
use ece.Walker.Print.{device, target, say, show_link, string_in, overwrite, size_or_device}

-- No byte of a text is 0.
abbrev pub NoZero : Text → Type 0
NoZero [] = Unit
NoZero (c ∷ text) = (c ≢ 0) × NoZero text

string_in-overwrite :
    (text old : List ℕ)
    → NoZero text
    → (string_in (overwrite text old) ≡ some text) ↔ (get_elem? old (length text) ≡ some 0)
unfolding string_in overwrite
string_in-overwrite [] [] h = ground arith
string_in-overwrite [] (b ∷ old) h = (
  λ e. elim (Bool-cases (b == 0)) [
    | inl end ↦ ground arith
    | inr more ↦ absurd (elim (Option-cases (string_in old)) [
      | inl n ↦ ground (arith, e)
      | inr (t, n) ↦ ground (arith, e)
    ])
  ],
  λ e. ground arith,
)
string_in-overwrite (c ∷ text) [] h = ground arith
string_in-overwrite (c ∷ text) (b ∷ old) h =
    let (there, back) = string_in-overwrite text old h.1 in
    (
      λ e. there (elim (Option-cases (string_in (overwrite text old))) [
        | inl n ↦ absurd (ground (arith, e, h.0))
        | inr (t, n) ↦ ground (arith, e, h.0)
      ]),
      λ e. let same = back e in ground (arith, h.0, same),
    )

-- Where the content of a link has no 0, exactly this is printed if, and only if, the array is longer
-- than it and holds a 0 behind it already.
pub show_link-exact :
    (text : Text) (old : List ℕ)
    → NoZero text
    → (show_link old (some text) ≡ say (target text ∷ [])) ↔ (get_elem? old (length text) ≡ some 0)
show_link-exact text old h =
    let (there, back) = string_in-overwrite text old h in
    (
      λ e. there (elim (Option-cases (string_in (overwrite text old))) [
        | inl n ↦ absurd (ground (arith, e))
        | inr (t, n) ↦ ground (arith, e)
      ]),
      λ e. rw (back e) refl,
    )

-- The test in printData, and the formats that it is for.
abbrev special : ℕ → Bool
special c = (c == b'm') || (c == b'M')

abbrev agrees : ℕ → Bool
agrees f =
    if (f == 3) || (f == 7) then special (type_of_format f) else not (special (type_of_format f))

special_table : all_below 16 agrees ≡ true
unfolding all_below type_of_format
special_table = refl

agrees-format_of : (mode : ℕ) → agrees (format_of mode) ≡ true
agrees-format_of mode = all_below_sound 16 agrees (format_of mode) special_table (omega arith)

-- The number of the device is printed for the file formats 3 and 7, and for no other: not for
-- character devices, which are 2, nor for block devices, 6.
pub device_iff :
    (sb : Stat)
    → ((n : ℤ) × (size_or_device sb ≡ device n))
      ↔ ((format_of sb.st_mode ≡ 3) ⊎ (format_of sb.st_mode ≡ 7))
unfolding size_or_device get_type
device_iff sb =
    let known = agrees-format_of sb.st_mode in
    elim (Bool-cases (special (type_of_format (format_of sb.st_mode)))) [
      | inl holds ↦
          (λ _. ground (arith, known, holds), λ _. (to_int (pos sb.st_rdev), ground (arith, holds)))
      | inr fails ↦ (
        λ (n, e). absurd (ground (arith, fails, e)),
        λ h. absurd (ground (arith, known, fails, h)),
      )
    ]
