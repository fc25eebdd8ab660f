-- ===== src/Sdk/PluginId.antt =====
-- sdk/id.go: the form of a plugin's id. On the systems where the code runs an absolute path begins with
-- a slash or holds a backslash, which the test before filepath.IsAbs refuses already.
pub mod Laws
use anybot.Base.{
  ℕ, zero, suc, ◌+◌, ◌-◌, ◌≤◌, ◌<◌, ◌≡◌, refl, sym, ap, ◌∙◌, subst, ◌≢◌, ◌↔◌, ◌⊎◌, inl, inr, Bool,
  true, false, not, ◌&&◌, ◌||◌, Option, none, some, List, [], ◌∷◌, ◌++◌, map, arith, Bool-cases,
  Option-cases, Text, codes, if◌then◌else◌,
}
use anybot.Base.{trim_space, contains_any, strip_prefix, is_some, byte_length, leb, eqb, ◌==◌}

-- The reasons for which an id is refused.
pub data IdError : Type 0 where
  id_required unsafe_id foreign_id bad_characters : IdError

-- validPluginIDRandomPart
unfoldable pub valid_random_part : Text → Bool
valid_random_part [] = true
valid_random_part (c ∷ s) =
    ((leb b'a' c && leb c b'z') || (leb b'2' c && leb c b'7')) && valid_random_part s

-- The tests of ValidatePluginID that keep an id from being read as a path.
unfoldable pub is_unsafe : Text → Bool
is_unsafe id =
    not (trim_space id == id)
    || contains_any id (codes "/\\")
    || id == codes "."
    || id == codes ".."
    || is_some (strip_prefix (codes ".") id)

-- ValidatePluginID
unfoldable pub validate_plugin_id : Text → Option IdError
unfolding is_unsafe valid_random_part strip_prefix byte_length
validate_plugin_id [] = some id_required
validate_plugin_id (c ∷ s) =
    if is_unsafe (c ∷ s) then some unsafe_id else elim (strip_prefix (codes "plg_") (c ∷ s)) [
      | none ↦ some foreign_id
      | some rest ↦
          if not (eqb (byte_length rest) 26)
          then some foreign_id
          else if not (valid_random_part rest)
          then some bad_characters
          else none
    ]
