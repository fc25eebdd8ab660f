-- ===== src/Sdk/ConfigPath.antt =====
-- sdk/config.go: the dotted paths below a plugin's configuration, and the handle with which a plugin
-- writes its own configuration. The store behind the handle is the framework's; a call of it is the
-- request that it is given.
use anybot.Base.{
  ◌≡◌, refl, ◌⊎◌, inl, inr, Bool, false, not, ◌&&◌, Option, none, some, List, [], ◌∷◌, arith,
  Option-cases, Text, codes, if◌then◌else◌, is_empty, split_by, trim_space, eqb, has_char, ◌==◌,
  is_some, strip_prefix, all,
}

-- ErrConfigStoreUnavailable and the errors of the paths, by what they name.
pub data ConfigPathError : Type 0 where
  config_store_unavailable assignment_required key_required key_invalid : ConfigPathError
  key_named_invalid : Text → ConfigPathError

abbrev valid_part : Text → Bool
valid_part part =
    trim_space part == part
    && not (is_empty part)
    && not (has_char b'=' part)
    && not (is_some (strip_prefix (codes "-") part))

-- validateConfigPath
unfoldable pub validate_config_path : List Text → Option ConfigPathError
unfolding trim_space has_char strip_prefix
validate_config_path [] = some key_required
validate_config_path (part ∷ parts) =
    if all valid_part (part ∷ parts) then none else some key_invalid

-- ParseConfigPath
unfoldable pub parse_config_path : Text → ConfigPathError ⊎ List Text
unfolding validate_config_path split_by trim_space
parse_config_path input =
    let key = trim_space input in
    let parts = split_by (eqb b'.') key in
    if is_empty key then inl key_required else elim (validate_config_path parts) [
      | some _ ↦ inl (key_named_invalid key)
      | none ↦ inr parts
    ]

-- A path that was parsed is one that the store accepts.
pub parse_config_path-valid :
    (input : Text) (path : List Text)
    → parse_config_path input ≡ inr path
    → validate_config_path path ≡ none
unfolding parse_config_path
parse_config_path-valid input path e =
    let parts = split_by (eqb b'.') (trim_space input) in
    elim (Option-cases (validate_config_path parts)) [
      | inr (_, h) ↦ absurd (ground (arith, e, h))
      | inl h ↦ ground (arith, e, h)
    ]

parse_config_path-not_empty :
    (input : Text) (path : List Text) → parse_config_path input ≡ inr path → is_empty path ≡ false
unfolding validate_config_path
parse_config_path-not_empty input [] e = absurd (ground (arith, parse_config_path-valid input [] e))
parse_config_path-not_empty input (part ∷ path) e = refl

pub record ConfigHandle : Type 0 where
  pub plugin : Text
  pub has_store : Bool

-- ConfigHandle.Available
unfoldable pub is_available : ConfigHandle → Bool
is_available h = not (is_empty h.plugin) && h.has_store

unfoldable pub parse_paths : List Text → ConfigPathError ⊎ List (List Text)
unfolding parse_config_path
parse_paths [] = inr []
parse_paths (key ∷ keys) = elim (parse_config_path key) [
  | inl e ↦ inl e
  | inr path ↦ elim (parse_paths keys) [ inl e ↦ inl e | inr paths ↦ inr (path ∷ paths) ]
]

module _ (V : Type 0) where
  pub record ConfigAssignment : Type 0 where
    pub path : List Text
    pub value : V

  -- What the store is asked for.
  pub data StoreRequest : Type 0 where
    set_plugin_config : Text → List ConfigAssignment → StoreRequest
    reset_plugin_config : Text → List (List Text) → StoreRequest

  unfoldable pub first_invalid : List ConfigAssignment → Option ConfigPathError
  unfolding validate_config_path
  first_invalid [] = none
  first_invalid (a ∷ rest) = elim (validate_config_path a.path) [
    | some e ↦ some e
    | none ↦ first_invalid rest
  ]

  -- ConfigHandle.SetAll, ConfigHandle.Set and ConfigHandle.Reset
  unfoldable pub set_all : ConfigHandle → List ConfigAssignment → ConfigPathError ⊎ StoreRequest
  unfolding is_available first_invalid
  set_all h assignments =
      if not (is_available h)
      then inl config_store_unavailable
      else if is_empty assignments
      then inl assignment_required
      else elim (first_invalid assignments) [
        | some e ↦ inl e
        | none ↦ inr (set_plugin_config h.plugin assignments)
      ]

  unfoldable pub set : ConfigHandle → Text → V → ConfigPathError ⊎ StoreRequest
  unfolding parse_config_path set_all
  set h key new = elim (parse_config_path key) [
    | inl e ↦ inl e
    | inr p ↦ set_all h (record { path = p; value = new } ∷ [])
  ]

  unfoldable pub reset : ConfigHandle → List Text → ConfigPathError ⊎ StoreRequest
  unfolding is_available parse_paths
  reset h keys =
      if not (is_available h)
      then inl config_store_unavailable
      else if is_empty keys
      then inl key_required
      else elim (parse_paths keys) [
        | inl e ↦ inl e
        | inr paths ↦ inr (reset_plugin_config h.plugin paths)
      ]
