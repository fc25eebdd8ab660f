-- ===== src/Sdk/Registry.antt =====
-- sdk/registry.go: the factories of plugins by their ids. Of a factory its id, its build function and
-- its manifest are modelled; `B` stands for build functions and `failing` for one that returns an error.
use anybot.Base.{◌⊎◌, inl, inr, not, Option, none, some, List, [], ◌∷◌, Text, if◌then◌else◌}
use anybot.Base.{Dict, lookup, insert, trim_space, is_empty, is_some, text_before}
use anybot.Sdk.PluginId.{IdError, validate_plugin_id}

pub data RegistryError : Type 0 where
  not_initialized plugin_id_required : RegistryError
  plugin_id_invalid : IdError → RegistryError
  build_required already_registered : Text → RegistryError

pub record Factory (B M : Type 0) : Type 0 where
  pub info : M
  pub plugin_id : Text
  pub build : Option B

-- A registry whose map is nil is none.
abbrev pub Registry : Type 0 → Type 0 → Type 0
Registry B M = Option (Dict (Factory B M))

-- sort.Strings of different texts.
unfoldable pub insert_text : Text → List Text → List Text
unfolding text_before
insert_text s [] = s ∷ []
insert_text s (t ∷ ts) = if text_before t s then t ∷ insert_text s ts else s ∷ t ∷ ts

module _ {B M : Type 0} where
  abbrev pub new_registry : Registry B M
  new_registry = some []

  -- WithPluginID
  unfoldable pub with_plugin_id : (IdError → B) → Text → Factory B M → Factory B M
  unfolding trim_space validate_plugin_id
  with_plugin_id failing id f = if is_empty id then f else record f {
    plugin_id = trim_space id;
    build = elim (validate_plugin_id (trim_space id)) [
      | none ↦ f.build
      | some e ↦ some (failing e)
    ];
  }

  -- The tests of Register behind the one for a nil map.
  unfoldable pub register_in : Factory B M → Dict (Factory B M) → RegistryError ⊎ Dict (Factory B M)
  unfolding validate_plugin_id
  register_in f d =
      if is_empty f.plugin_id
      then inl plugin_id_required
      else elim (validate_plugin_id f.plugin_id) [
        | some e ↦ inl (plugin_id_invalid e)
        | none ↦
            if not (is_some f.build)
            then inl (build_required f.plugin_id)
            else if is_some (lookup f.plugin_id d)
            then inl (already_registered f.plugin_id)
            else inr (insert f.plugin_id f d)
      ]

  -- Register
  unfoldable pub register_factory : Factory B M → Registry B M → RegistryError ⊎ Registry B M
  unfolding register_in
  register_factory f none = inl not_initialized
  register_factory f (some d) = elim (register_in f d) [ inl e ↦ inl e | inr d' ↦ inr (some d') ]

  -- Registry.Factory
  unfoldable pub factory_of : Text → Registry B M → Option (Factory B M)
  factory_of id none = none
  factory_of id (some d) = lookup id d

  -- PluginIDs of the map.
  unfoldable pub plugin_ids : Dict (Factory B M) → List Text
  unfolding insert_text
  plugin_ids [] = []
  plugin_ids ((id, f) ∷ d) = insert_text id (plugin_ids d)
