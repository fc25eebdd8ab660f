-- ===== src/Sdk/PluginId/Laws.antt =====
-- sdk/id.go: which ids are valid.
use anybot.Base.{
  ℕ, ◌<◌, ◌≡◌, refl, sym, ◌∙◌, ◌↔◌, ◌⊎◌, inl, inr, true, false, not, Option, none, some, [], ◌∷◌,
  ◌++◌, arith, Bool-cases, Text, codes, if◌then◌else◌,
}
use anybot.Base.{
  trim_space, trim_space-solid, is_solid, is_space, contains_any, has_char, strip_prefix,
  strip_prefix-append, strip_prefix-eq-some, byte_length, length, eqb, ◌==◌, eq_refl,
}
use anybot.Sdk.PluginId.{
  validate_plugin_id, valid_random_part, is_unsafe, foreign_id, bad_characters,
}

-- A character of a random part is one byte long, no space and no separator of paths.
valid-byte_length : (s : Text) → valid_random_part s ≡ true → byte_length s ≡ length s
unfolding valid_random_part byte_length
valid-byte_length [] h = refl
valid-byte_length (c ∷ s) h = ground (arith, valid-byte_length s)

pub valid-is_solid : (s : Text) → valid_random_part s ≡ true → is_solid s ≡ true
unfolding valid_random_part is_solid is_space
valid-is_solid [] h = refl
valid-is_solid (c ∷ s) h = ground (arith, valid-is_solid s)

valid-has_char :
    (c : ℕ) (s : Text)
    → valid_random_part s ≡ true
    → c < b'2' ⊎ (b'7' < c) × (c < b'a')
    → has_char c s ≡ false
unfolding valid_random_part has_char
valid-has_char c [] h k = refl
valid-has_char c (x ∷ s) h k = ground (arith, valid-has_char c s, k)

valid-is_safe :
    (rest : Text) → valid_random_part rest ≡ true → is_unsafe (codes "plg_" ++ rest) ≡ false
unfolding is_unsafe strip_prefix contains_any has_char is_solid is_space ◌==◌
valid-is_safe rest h =
    let solid : trim_space (codes "plg_" ++ rest) ≡ codes "plg_" ++ rest =
      trim_space-solid (codes "plg_" ++ rest) (valid-is_solid rest h) in
    rw
      (
        solid,
        eq_refl rest,
        valid-has_char b'/' rest h (inl (omega arith)),
        valid-has_char 92 rest h (inr (omega arith)),
      )
      refl

-- The tests behind the one for a path.
checked :
    (o : Option Text)
    → elim o [
      | none ↦ some foreign_id
      | some rest ↦
          if not (eqb (byte_length rest) 26)
          then some foreign_id
          else if not (valid_random_part rest)
          then some bad_characters
          else none
    ]
      ≡ none
    → (rest : Text) × (o ≡ some rest) × (byte_length rest ≡ 26) × (valid_random_part rest ≡ true)
checked none h = absurd (ground (arith, h))
checked (some rest) h = (rest, refl, ground (arith, h), ground (arith, h))

accepted :
    (id : Text)
    → validate_plugin_id id ≡ none
    → (rest : Text) × (id ≡ codes "plg_" ++ rest)
      × (length rest ≡ 26)
      × (valid_random_part rest ≡ true)
unfolding validate_plugin_id
accepted [] h = absurd (ground (arith, h))
accepted (c ∷ s) h = elim (Bool-cases (is_unsafe (c ∷ s))) [
  | inl e ↦ absurd (ground (arith, h, e))
  | inr e ↦
      let (rest, cut, long, ok) = checked (strip_prefix (codes "plg_") (c ∷ s)) (rw e at h) in
      (
        rest,
        strip_prefix-eq-some (codes "plg_") (c ∷ s) rest cut,
        sym (valid-byte_length rest ok) ∙ long,
        ok,
      )
]

generated :
    (rest : Text)
    → length rest ≡ 26
    → valid_random_part rest ≡ true
    → validate_plugin_id (codes "plg_" ++ rest) ≡ none
unfolding validate_plugin_id
generated rest long ok = ground (
  arith,
  valid-is_safe rest ok,
  strip_prefix-append (codes "plg_") rest,
  valid-byte_length rest ok,
  long,
  ok,
)

-- ValidatePluginID accepts exactly the ids that the generator makes: plg_ and 26 characters of a to z
-- and 2 to 7.
pub validate_plugin_id-decides :
    (id : Text)
    → (validate_plugin_id id ≡ none) ↔ (
        (rest : Text) × (id ≡ codes "plg_" ++ rest)
        × (length rest ≡ 26)
        × (valid_random_part rest ≡ true))
validate_plugin_id-decides id = (accepted id, λ g. rw g.1 (generated g.0 g.2 g.3))
