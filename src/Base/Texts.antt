-- ===== src/Base/Texts.antt =====
-- Go strings as lists of code points, with the functions of Go's package strings that the code
-- calls: HasPrefix, TrimPrefix, TrimSpace, Index, Cut, Join, Contains.
use Prim.Native.Nat.{ℕ, ◌+◌}
use Prim.Native.Char.{code}
use Prim.Native.String.{String}
use mathlib.Core.Path.{◌≡◌, refl}
use mathlib.Core.Bool.{Bool, true, false, not, ◌&&◌, ◌||◌}
use mathlib.Core.Logic.{◌↔◌}
use mathlib.Core.Option.{Option, none, some}
use mathlib.Core.List.{List, [], ◌∷◌, ◌++◌}
use native.Mathlib.Omega.{arith}
use anybot.Base.Tests.{eqb, leb, if◌then◌else◌}

abbrev pub Text : Type 0
Text = List ℕ

-- The code points of a literal.
abbrev pub codes : String → Text
codes String.[] = []
codes (String.◌∷◌ c s) = code c ∷ codes s

infix 50 ◌==◌
unfoldable pub ◌==◌ : Text → Text → Bool
[] == [] = true
[] == (_ ∷ _) = false
(_ ∷ _) == [] = false
(a ∷ s) == (b ∷ t) = eqb a b && s == t

pub eq_iff : (s t : Text) → ((s == t) ≡ true) ↔ (s ≡ t)
unfolding ◌==◌
eq_iff [] [] = ground arith
eq_iff [] (b ∷ t) = ground arith
eq_iff (a ∷ s) [] = ground arith
eq_iff (a ∷ s) (b ∷ t) = ground (arith, eq_iff s t)

pub eq_refl : (s : Text) → (s == s) ≡ true
eq_refl s = (eq_iff s s).1 refl

-- slices.Contains on []string.
unfoldable pub contains : List Text → Text → Bool
contains [] t = false
contains (x ∷ xs) t = x == t || contains xs t

-- strings.HasPrefix, and strings.TrimPrefix of a text that has it.
unfoldable pub strip_prefix : Text → Text → Option Text
strip_prefix [] t = some t
strip_prefix (a ∷ p) [] = none
strip_prefix (a ∷ p) (b ∷ t) = if eqb a b then strip_prefix p t else none

pub strip_prefix-append : (p t : Text) → strip_prefix p (p ++ t) ≡ some t
unfolding strip_prefix
strip_prefix-append [] t = refl
strip_prefix-append (a ∷ p) t = ground (arith, strip_prefix-append p t)

pub strip_prefix-eq-some : (p t r : Text) → strip_prefix p t ≡ some r → t ≡ p ++ r
unfolding strip_prefix
strip_prefix-eq-some [] t r h = ground arith
strip_prefix-eq-some (a ∷ p) [] r h = ground arith
strip_prefix-eq-some (a ∷ p) (b ∷ t) r h = ground (arith, strip_prefix-eq-some p t r)

-- unicode.IsSpace.
unfoldable pub is_space : ℕ → Bool
is_space c =
    (leb 9 c && leb c 13)
    || eqb c 32
    || eqb c 0x85
    || eqb c 0xa0
    || eqb c 0x1680
    || (leb 0x2000 c && leb c 0x200a)
    || eqb c 0x2028
    || eqb c 0x2029
    || eqb c 0x202f
    || eqb c 0x205f
    || eqb c 0x3000

unfoldable pub trim_left : Text → Text
trim_left [] = []
trim_left (c ∷ s) = let rest = trim_left s in if is_space c then rest else c ∷ s

-- Drops the spaces at the end: a space stays only if something after it stays.
unfoldable pub trim_right : Text → Text
trim_right [] = []
trim_right (c ∷ s) = elim (trim_right s) [
  | [] ↦ if is_space c then [] else c ∷ []
  | d ∷ r ↦ c ∷ d ∷ r
]

-- strings.TrimSpace.
unfoldable pub trim_space : Text → Text
unfolding trim_left trim_right is_space
trim_space s = trim_right (trim_left s)

-- strings.Join.
unfoldable pub join : Text → List Text → Text
join sep [] = []
join sep (x ∷ []) = x
join sep (x ∷ y ∷ xs) = x ++ (sep ++ join sep (y ∷ xs))

-- strings.Contains: the pattern is a prefix of some suffix.
unfoldable pub has_substring : Text → Text → Bool
has_substring p [] = elim p [ [] ↦ true | _ ∷ _ ↦ false ]
has_substring p (c ∷ s) = elim (strip_prefix p (c ∷ s)) [ some _ ↦ true | none ↦ has_substring p s ]

pub trim_right-last :
    (s : Text) (c : ℕ) → is_space c ≡ false → trim_right (s ++ c ∷ []) ≡ s ++ c ∷ []
unfolding trim_right
trim_right-last [] c h = rw h
trim_right-last (x ∷ []) c h = rw (h, trim_right)
trim_right-last (x ∷ y ∷ s) c h = rw (trim_right-last (y ∷ s) c h, trim_right)

-- A text that neither begins nor ends with a space is not trimmed.
pub trim_space-ends :
    (a : ℕ) (s : Text) (b : ℕ)
    → is_space a ≡ false
    → is_space b ≡ false
    → trim_space (a ∷ (s ++ b ∷ [])) ≡ a ∷ (s ++ b ∷ [])
unfolding trim_space trim_left
trim_space-ends a s b h k = rw h (trim_right-last (a ∷ s) b k)

-- The bytes of a text in UTF-8: Go's len.
unfoldable pub byte_length : Text → ℕ
byte_length [] = 0
byte_length (c ∷ s) =
    let rest = byte_length s in
    if leb c 0x7f
    then 1 + rest
    else if leb c 0x7ff
    then 2 + rest
    else if leb c 0xffff
    then 3 + rest
    else 4 + rest

-- No character is a space.
unfoldable pub is_solid : Text → Bool
is_solid [] = true
is_solid (c ∷ s) = not (is_space c) && is_solid s

trim_right-solid : (s : Text) → is_solid s ≡ true → trim_right s ≡ s
unfolding trim_right is_solid
trim_right-solid [] h = refl
trim_right-solid (c ∷ []) h = ground (arith, h)
trim_right-solid (c ∷ d ∷ s) h = rw (trim_right-solid (d ∷ s) (ground (arith, h)), trim_right)

pub trim_space-solid : (s : Text) → is_solid s ≡ true → trim_space s ≡ s
unfolding trim_space trim_left is_solid
trim_space-solid [] h = refl
trim_space-solid (c ∷ s) h = ground (arith, h, trim_right-solid (c ∷ s) h)

unfoldable pub has_char : ℕ → Text → Bool
has_char c [] = false
has_char c (x ∷ s) = eqb x c || has_char c s

-- strings.ContainsAny.
unfoldable pub contains_any : Text → Text → Bool
contains_any s [] = false
contains_any s (c ∷ chars) = has_char c s || contains_any s chars

-- strings.Split at one byte, and strings.FieldsFunc with its empty fields.
unfoldable pub split_by : (ℕ → Bool) → Text → List Text
split_by cut [] = [] ∷ []
split_by cut (c ∷ s) =
    let rest = split_by cut s in
    if cut c then [] ∷ rest else elim rest [ [] ↦ (c ∷ []) ∷ [] | w ∷ ws ↦ (c ∷ w) ∷ ws ]
