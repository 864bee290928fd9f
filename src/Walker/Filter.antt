-- ===== src/Walker/Filter.antt =====
-- Which files ps2/main.c shows.
use ece.Base.{
  ◌≡◌, ◌↔◌, ◌<◌, ◌+◌, ℕ, refl, ap, true, Option, none, some, Option-cases, Bool-cases, inl, inr,
  arith,
}
use ece.Base.Int.{ℤ, pos, negsuc, ◌+ℤ◌, ◌-ℤ◌, to_int}
use ece.Walker.Stat.{Stat, same, wanted_user, user_passes, time_passes, to_display}

same_refl : (a : ℤ) → same a a ≡ true
same_refl (pos m) = ground arith
same_refl (negsuc m) = ground arith

same→≡ : (a b : ℤ) → same a b ≡ true → a ≡ b
same→≡ (pos m) (pos n) h = ap pos (ground arith)
same→≡ (pos m) (negsuc n) h = absurd (ground arith)
same→≡ (negsuc m) (pos n) h = absurd (ground arith)
same→≡ (negsuc m) (negsuc n) h = ap negsuc (ground arith)

-- The owner is the user that the option names, if it is there.
abbrev pub OwnerFits {ℓ} :
    {Text : Type ℓ} → (Text → ℤ) → (Text → Option ℤ) → Option Text → Stat → Type 0
OwnerFits atoi getpwnam none sb = Unit
OwnerFits atoi getpwnam (some text) sb =
    (user : ℤ) × (wanted_user atoi getpwnam text ≡ some user)
    × (to_int user ≡ to_int (pos sb.st_uid))

-- A file of the time `m` is older than `d` seconds at the time `n` for the option `d`, and
-- younger for the option `-d`.
abbrev pub TimeFits : ℕ → Option ℤ → ℕ → Type 0
TimeFits n none m = Unit
TimeFits n (some (pos d)) m = 0 < d → m + d < n
TimeFits n (some (negsuc d)) m = n < m + d + 1

-- The option on the time is an `int`.
abbrev pub IsInt : Option ℤ → Type 0
IsInt none = Unit
IsInt (some (pos d)) = d < 0x8000_0000
IsInt (some (negsuc d)) = d < 0x8000_0000

-- The filter on the owner.
user_passes→fits {ℓ} :
    {Text : Type ℓ} (atoi : Text → ℤ) (getpwnam : Text → Option ℤ) (filter : Option Text)
    (sb : Stat)
    → user_passes atoi getpwnam filter sb ≡ some true
    → OwnerFits atoi getpwnam filter sb
unfolding user_passes
user_passes→fits atoi getpwnam none sb h = tt
user_passes→fits atoi getpwnam (some text) sb h =
    elim (Option-cases (wanted_user atoi getpwnam text)) [
      | inl missing ↦ absurd (ground arith)
      | inr (user, found) ↦ (user, found, same→≡ _ _ (ground (arith, h)))
    ]

fits→user_passes {ℓ} :
    {Text : Type ℓ} (atoi : Text → ℤ) (getpwnam : Text → Option ℤ) (filter : Option Text)
    (sb : Stat)
    → OwnerFits atoi getpwnam filter sb
    → user_passes atoi getpwnam filter sb ≡ some true
unfolding user_passes
fits→user_passes atoi getpwnam none sb h = refl
fits→user_passes atoi getpwnam (some text) sb (user, found, e) = rw (found, e, same_refl)

-- The filter on the time.
time_passes→fits :
    (n : ℕ) (filter : Option ℤ) (sb : Stat) (m : ℕ)
    → n < 0x8000_0000
    → m < 0x8000_0000
    → IsInt filter
    → sb.st_mtime ≡ pos m
    → time_passes (pos n) filter sb ≡ true
    → TimeFits n filter m
unfolding time_passes to_int ◌-ℤ◌ ◌+ℤ◌
time_passes→fits n none sb m now mtime int e h = tt
time_passes→fits n (some (pos d)) sb m now mtime int e h = λ positive. ground arith
time_passes→fits n (some (negsuc d)) sb m now mtime int e h = ground arith

fits→time_passes :
    (n : ℕ) (filter : Option ℤ) (sb : Stat) (m : ℕ)
    → n < 0x8000_0000
    → m < 0x8000_0000
    → IsInt filter
    → sb.st_mtime ≡ pos m
    → TimeFits n filter m
    → time_passes (pos n) filter sb ≡ true
unfolding time_passes to_int ◌-ℤ◌ ◌+ℤ◌
fits→time_passes n none sb m now mtime int e h = refl
fits→time_passes n (some (pos d)) sb m now mtime int e h = ground arith
fits→time_passes n (some (negsuc d)) sb m now mtime int e h = ground arith

module _ {ℓ} {Text : Type ℓ} (atoi : Text → ℤ) (getpwnam : Text → Option ℤ) where
  -- At a time and for a file's time that a positive `int` holds, `toDisplay` shows a file exactly
  -- if its owner is the user of the option, if that is given, and it is older than the seconds of
  -- a positive option, younger than those of a negative one.
  pub to_display_iff :
      (n : ℕ) (user_filter : Option Text) (time_filter : Option ℤ) (sb : Stat) (m : ℕ)
      → n < 0x8000_0000
      → m < 0x8000_0000
      → IsInt time_filter
      → sb.st_mtime ≡ pos m
      → (to_display atoi getpwnam (pos n) user_filter time_filter sb ≡ some true)
        ↔ (OwnerFits atoi getpwnam user_filter sb × TimeFits n time_filter m)
  unfolding to_display
  to_display_iff n uf tf sb m now mtime int e = (
    λ h. (
      user_passes→fits atoi getpwnam uf sb (ground arith),
      time_passes→fits n tf sb m now mtime int e (ground arith),
    ),
    λ (owner, time). rw (
      fits→user_passes atoi getpwnam uf sb owner,
      fits→time_passes n tf sb m now mtime int e time,
    ),
  )

  -- `toDisplay` reads through a null pointer exactly if the option on the owner is given, is no
  -- number but 0, and names no user.
  pub to_display_crash :
      (now : ℤ) (user_filter : Option Text) (time_filter : Option ℤ) (sb : Stat)
      → (to_display atoi getpwnam now user_filter time_filter sb ≡ none)
        ↔ ((text : Text) × (user_filter ≡ some text) × (atoi text ≡ pos 0) × (getpwnam text ≡ none))
  unfolding to_display user_passes
  to_display_crash now none tf sb =
      (λ h. absurd (ground arith), λ (text, e, z, m). absurd (ground arith))
  to_display_crash now (some text) tf sb = (
    λ h. elim (Bool-cases (same (atoi text) (pos 0))) [
      | inl zero_read ↦ (text, refl, same→≡ _ _ zero_read, ground arith)
      | inr number ↦ absurd (ground (arith, number))
    ],
    λ (other, e, z, m).
        let at : atoi text ≡ pos 0 = cc in let gone : getpwnam text ≡ none = cc in rw (at, gone),
  )
