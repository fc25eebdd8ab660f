-- ===== src/Base/Trim.antt =====
-- strings.TrimSpace twice is strings.TrimSpace once.
use Prim.Native.Nat.{ℕ}
use mathlib.Core.Path.{◌≡◌, refl}
use mathlib.Core.Logic.{inl, inr}
use mathlib.Core.Bool.{Bool, true, not}
use mathlib.Core.List.{[], ◌∷◌}
use native.Mathlib.Omega.{arith}
use anybot.Base.Tests.{Bool-cases, if◌then◌else◌}
use anybot.Base.Texts.{Text, is_space, trim_left, trim_right, trim_space}

-- The text does not begin with a space.
abbrev starts_solid : Text → Bool
starts_solid [] = true
starts_solid (c ∷ s) = not (is_space c)

trim_left-solid : (s : Text) → starts_solid s ≡ true → trim_left s ≡ s
unfolding trim_left
trim_left-solid [] h = refl
trim_left-solid (c ∷ s) h = ground (arith, h)

trim_left-starts_solid : (s : Text) → starts_solid (trim_left s) ≡ true
unfolding trim_left
trim_left-starts_solid [] = refl
trim_left-starts_solid (c ∷ s) = elim (Bool-cases (is_space c)) [
  | inl e ↦ rw (e, trim_left) (trim_left-starts_solid s)
  | inr e ↦ rw (e, trim_left) (ground (arith, e))
]

abbrev keep_right : ℕ → Text → Text
keep_right c t = elim t [ [] ↦ if is_space c then [] else c ∷ [] | d ∷ r ↦ c ∷ d ∷ r ]

keep_right-fixed :
    (c : ℕ) (t : Text) → trim_right t ≡ t → trim_right (keep_right c t) ≡ keep_right c t
unfolding trim_right
keep_right-fixed c [] h = elim (Bool-cases (is_space c)) [
  | inl e ↦ rw (e, trim_right) refl
  | inr e ↦ ground (arith, e)
]
keep_right-fixed c (d ∷ r) h = rw (h, trim_right) refl

trim_right-twice : (s : Text) → trim_right (trim_right s) ≡ trim_right s
unfolding trim_right
trim_right-twice [] = refl
trim_right-twice (c ∷ s) = keep_right-fixed c (trim_right s) (trim_right-twice s)

keep_right-starts_solid :
    (c : ℕ) (t : Text) → not (is_space c) ≡ true → starts_solid (keep_right c t) ≡ true
keep_right-starts_solid c [] h = ground (arith, h)
keep_right-starts_solid c (d ∷ r) h = h

trim_right-starts_solid : (s : Text) → starts_solid s ≡ true → starts_solid (trim_right s) ≡ true
unfolding trim_right
trim_right-starts_solid [] h = refl
trim_right-starts_solid (c ∷ s) h = keep_right-starts_solid c (trim_right s) h

pub trim_space-twice : (s : Text) → trim_space (trim_space s) ≡ trim_space s
unfolding trim_space
trim_space-twice s =
    rw
      (trim_left-solid (trim_right (trim_left s))
        (trim_right-starts_solid (trim_left s) (trim_left-starts_solid s)))
      (trim_right-twice (trim_left s))
