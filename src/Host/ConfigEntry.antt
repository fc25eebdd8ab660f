-- ===== src/Host/ConfigEntry.antt =====
-- app/host/config_update.go: one plugin's entry, the mapping with the keys `enabled` and `config`, and
-- the operations on it: switching the plugin, writing, deleting and filling its configuration. Each
-- gives the changed entry, or an error, behind which nothing is saved.
pub mod Laws
pub mod Fills
pub mod Sync
use anybot.Base.{
  ℕ, zero, suc, ◌+◌, ◌-◌, ◌≤◌, ◌<◌, ◌≡◌, refl, sym, ap, ◌∙◌, subst, ◌≢◌, ◌↔◌, ◌⊎◌, inl, inr, Bool,
  true, false, not, ◌&&◌, ◌||◌, Option, none, some, List, [], ◌∷◌, ◌++◌, map, arith, Bool-cases,
  Option-cases, Text, codes, if◌then◌else◌, ◌==◌,
}
use anybot.Host.Yaml.{
  Node, Fields, mapping, no_fields, field, scalar, bool_node, bool_value, bool_tag, scalar_node,
  empty_config_node, is_mapping, is_null, empty_yaml_node, empty_node, clone, mapping_value,
  put_field, document_root, no_node,
}
use anybot.Host.YamlPaths.{
  ConfigError, Marshal, at_key, default_config, at_path, entry_not_mapping,
  plugin_entry_not_mapping, config_not_mapping, path_required, opened, set_mapping_path,
  remove_mapping_path,
}
use anybot.Host.YamlDefaults.{merge_mapping_defaults}

pub record PluginConfigAssignment : Type 0 where
  pub path : List Text
  pub value : Node

abbrev pub enabled_key : Text
enabled_key = codes "enabled"

abbrev pub config_key : Text
config_key = codes "config"

-- A null entry is made a mapping.
unfoldable pub ensure_plugin_entry_mapping : Node → ConfigError ⊎ Node
unfolding is_null
ensure_plugin_entry_mapping entry =
    if is_null entry
    then inr empty_config_node
    else if is_mapping entry
    then inr entry
    else inl entry_not_mapping

-- The entry with a value behind a key, in place or at the end.
unfoldable pub with_field : Text → Node → Node → Node
unfolding put_field
with_field key value (mapping tag content) = mapping tag (put_field (scalar key) value content)
with_field key value entry = entry

-- enabledNode.Kind == yaml.ScalarNode && enabledNode.Tag == "!!bool" && enabledNode.Value == …
abbrev pub is_bool : Option Node → Bool → Bool
is_bool (some (scalar_node tag text)) b = tag == bool_tag && text == bool_value b
is_bool _ b = false

unfoldable pub set_plugin_entry_enabled : Node → Text → Bool → ConfigError ⊎ (Bool × Node)
unfolding ensure_plugin_entry_mapping mapping_value with_field
set_plugin_entry_enabled entry id enabled = elim (ensure_plugin_entry_mapping entry) [
  | inl _ ↦ inl (plugin_entry_not_mapping id)
  | inr m ↦
      if is_bool (mapping_value m enabled_key) enabled
      then inr (false, m)
      else inr (true, with_field enabled_key (bool_node enabled) m)
]

module _ (marshal : Marshal) where
  -- One assignment, and the loop over them.
  unfoldable pub set_assignment : Text → List Text → Node → Node → ConfigError ⊎ (Bool × Node)
  unfolding set_mapping_path
  set_assignment id [] value config = inl path_required
  set_assignment id (key ∷ path) value config =
      elim (set_mapping_path marshal key path value config) [
        | inl e ↦ inl (at_path id (key ∷ path) e)
        | inr r ↦ inr r
      ]

  unfoldable pub set_assignments :
      Text → List PluginConfigAssignment → Node → ConfigError ⊎ (Bool × Node)
  unfolding set_assignment
  set_assignments id [] config = inr (false, config)
  set_assignments id (a ∷ rest) config = elim (set_assignment id a.path a.value config) [
    | inl e ↦ inl e
    | inr (changed, config') ↦ elim (set_assignments id rest config') [
      | inl e ↦ inl e
      | inr (more, config'') ↦ inr (changed || more, config'')
    ]
  ]

  unfoldable pub set_plugin_config_assignments :
      Text → Node → List PluginConfigAssignment → ConfigError ⊎ (Bool × Node)
  unfolding ensure_plugin_entry_mapping mapping_value opened with_field set_assignments
  set_plugin_config_assignments id entry assignments = elim (ensure_plugin_entry_mapping entry) [
    | inl _ ↦ inl (plugin_entry_not_mapping id)
    | inr m ↦
        let config = opened (mapping_value m config_key) in
        if is_mapping config
        then elim (set_assignments id assignments config) [
          | inl e ↦ inl e
          | inr (changed, config') ↦ inr (changed, with_field config_key config' m)
        ]
        else inl (config_not_mapping id)
  ]

-- The loop of removePluginConfigPaths: how many of the paths held something.
unfoldable pub remove_paths : Text → List (List Text) → Node → ConfigError ⊎ (ℕ × Node)
unfolding remove_mapping_path
remove_paths id [] config = inr (0, config)
remove_paths id ([] ∷ rest) config = inl path_required
remove_paths id ((key ∷ path) ∷ rest) config = elim (remove_mapping_path key path config) [
  | inl e ↦ inl (at_path id (key ∷ path) e)
  | inr (removed, config') ↦ elim (remove_paths id rest config') [
    | inl e ↦ inl e
    | inr (n, config'') ↦ inr ((if removed then suc n else n), config'')
  ]
]

unfoldable pub remove_plugin_config_paths :
    Text → Node → List (List Text) → ConfigError ⊎ (ℕ × Node)
unfolding ensure_plugin_entry_mapping mapping_value empty_yaml_node empty_node with_field
    remove_paths
remove_plugin_config_paths id entry paths = elim (ensure_plugin_entry_mapping entry) [
  | inl _ ↦ inl (plugin_entry_not_mapping id)
  | inr m ↦ elim (mapping_value m config_key) [
    | none ↦ inr (0, m)
    | some config ↦
        if empty_yaml_node (some config)
        then inr (0, m)
        else if is_mapping config
        then elim (remove_paths id paths config) [
          | inl e ↦ inl e
          | inr (n, config') ↦ inr (n, with_field config_key config' m)
        ]
        else inl (config_not_mapping id)
  ]
]

-- A value of Go as yaml.Marshal and yaml.Unmarshal give it back: no value, an error or a document.
abbrev pub AsYaml : Type 0
AsYaml = Option (Text ⊎ Node)

unfoldable pub default_config_node : AsYaml → Text ⊎ Node
unfolding document_root is_null clone
default_config_node none = inr empty_config_node
default_config_node (some (inl e)) = inl e
default_config_node (some (inr doc)) = elim (document_root doc) [
  | no_node ↦ inr empty_config_node
  | root ↦ if is_null root then inr empty_config_node else inr (clone root)
]

unfoldable pub fill_plugin_config_defaults : Node → Node → ConfigError ⊎ (Bool × Node)
unfolding ensure_plugin_entry_mapping mapping_value empty_yaml_node empty_node with_field clone
    merge_mapping_defaults
fill_plugin_config_defaults entry defaults = elim (ensure_plugin_entry_mapping entry) [
  | inl e ↦ inl e
  | inr m ↦ elim (mapping_value m config_key) [
    | none ↦ inr (true, with_field config_key (clone defaults) m)
    | some config ↦
        if empty_yaml_node (some config)
        then inr (true, with_field config_key (clone defaults) m)
        else if is_mapping config && is_mapping defaults
        then inr (
          (merge_mapping_defaults config defaults).0,
          with_field config_key (merge_mapping_defaults config defaults).1 m,
        )
        else inr (false, m)
  ]
]

-- An entry that does not say whether the plugin is enabled says so in its first pair.
abbrev pub in_front : Text → Node → Node → Node
in_front key value (mapping tag content) = mapping tag (field (scalar key) value content)
in_front key value entry = entry

unfoldable pub fill_missing_plugin_enabled : Node → ConfigError ⊎ (Bool × Node)
unfolding ensure_plugin_entry_mapping mapping_value is_null with_field
fill_missing_plugin_enabled entry = elim (ensure_plugin_entry_mapping entry) [
  | inl e ↦ inl e
  | inr m ↦ elim (mapping_value m enabled_key) [
    | none ↦ inr (true, in_front enabled_key (bool_node true) m)
    | some v ↦
        if is_null v then inr (true, with_field enabled_key (bool_node true) m) else inr (false, m)
  ]
]

-- enabled.Decode(&value) of a scalar tagged !!bool is the parameter `decode_bool`.
unfoldable pub plugin_entry_disabled : (Text → Option Bool) → Node → Bool
unfolding mapping_value
plugin_entry_disabled decode_bool entry = elim (mapping_value entry enabled_key) [
  | some (scalar_node tag text) ↦
      if tag == bool_tag then elim (decode_bool text) [ some v ↦ not v | none ↦ false ] else false
  | _ ↦ false
]

-- syncPluginConfigNode, by what yaml makes of the factory's default.
unfoldable pub sync_plugin_config_node : Text → Node → AsYaml → ConfigError ⊎ (Bool × Node)
unfolding default_config_node fill_missing_plugin_enabled fill_plugin_config_defaults
sync_plugin_config_node id entry default = elim (default_config_node default) [
  | inl e ↦ inl (default_config id e)
  | inr defaults ↦ elim (fill_missing_plugin_enabled entry) [
    | inl e ↦ inl (at_key id enabled_key e)
    | inr (filled, entry') ↦ elim (fill_plugin_config_defaults entry' defaults) [
      | inl e ↦ inl (at_key id config_key e)
      | inr (more, entry'') ↦ inr (filled || more, entry'')
    ]
  ]
]
