-- ===== src/Host/YamlPaths.antt =====
-- app/host/config_update.go, setMappingPath and removeMappingPath: writing and deleting the value
-- behind a path of keys. An error drops the tree, which no caller saves. The path is given as its
-- first key and the rest, since the callers refuse an empty one. `Marshal` stands for yaml.Marshal.
pub mod SetLaws
pub mod RemoveLaws
use anybot.Base.{
  ℕ, zero, suc, ◌+◌, ◌-◌, ◌≤◌, ◌<◌, ◌≡◌, refl, sym, ap, ◌∙◌, subst, ◌≢◌, ◌↔◌, ◌⊎◌, inl, inr, Bool,
  true, false, not, ◌&&◌, ◌||◌, Option, none, some, List, [], ◌∷◌, ◌++◌, map, arith, Bool-cases,
  Option-cases, Text, codes, if◌then◌else◌, ◌==◌,
}
use anybot.Host.Yaml.{
  Node, Fields, mapping, no_fields, field, scalar, empty_config_node, is_mapping, empty_node,
  empty_yaml_node, has_no_content, field_value, put_field, remove_mapping_key, remove_field, clone,
  mapping_value,
}

-- The errors of the file, by their texts.
pub data ConfigError : Type 0 where
  parent_not_mapping : ConfigError
  not_mapping : Text → ConfigError
  -- plugin %s config.%s: %w
  at_path : Text → List Text → ConfigError → ConfigError
  -- plugin %s enabled: %w and plugin %s config: %w
  at_key : Text → Text → ConfigError → ConfigError
  entry_not_mapping : ConfigError
  plugin_entry_not_mapping : Text → ConfigError
  config_not_mapping : Text → ConfigError
  path_required : ConfigError
  assignment_required : ConfigError
  id_required : ConfigError
  -- plugin id %q cannot be used as a config file name
  bad_file_id : Text → ConfigError
  -- what ValidatePluginID says
  bad_id : Text → ConfigError
  unknown_plugin : Text → ConfigError
  configured_twice : Text → ConfigError
  default_config : Text → Text → ConfigError
  -- the codec and the operating system
  codec : Text → ConfigError
  system : Text → ConfigError

abbrev pub Marshal : Type 0
Marshal = Node → Option Text

-- The content of what the path goes through: an absent or empty value is a fresh mapping.
unfoldable pub opened : Option Node → Node
unfolding empty_yaml_node empty_node
opened none = empty_config_node
opened (some n) = if empty_yaml_node (some n) then empty_config_node else n

-- The mapping around a value that the path went through, when that was written, and when something
-- below it was deleted.
abbrev pub set_child :
    Text → Text → Fields → ConfigError ⊎ (Bool × Node) → ConfigError ⊎ (Bool × Node)
set_child key tag content (inl e) = inl e
set_child key tag content (inr (changed, child)) =
    inr (changed, mapping tag (put_field (scalar key) child content))

abbrev pub remove_child :
    Text → Text → Fields → ConfigError ⊎ (Bool × Node) → ConfigError ⊎ (Bool × Node)
remove_child key tag content (inl e) = inl e
remove_child key tag content (inr (false, child)) = inr (false, mapping tag content)
remove_child key tag content (inr (true, child)) =
    if has_no_content child
    then inr (true, mapping tag (remove_field key content))
    else inr (true, mapping tag (put_field (scalar key) child content))

abbrev same_text : Option Text → Option Text → Bool
same_text (some a) (some b) = a == b
same_text _ _ = false

module _ (marshal : Marshal) where
  -- yamlNodeEqual
  unfoldable pub yaml_node_equal : Node → Node → Bool
  yaml_node_equal a b = same_text (marshal a) (marshal b)

  unfoldable pub set_mapping_path : Text → List Text → Node → Node → ConfigError ⊎ (Bool × Node)
  unfolding yaml_node_equal opened clone put_field field_value empty_yaml_node empty_node
  set_mapping_path key [] value (mapping tag content) = elim (field_value key content) [
    | none ↦ inr (true, mapping tag (put_field (scalar key) (clone value) content))
    | some existing ↦
        if yaml_node_equal existing (clone value)
        then inr (false, mapping tag content)
        else inr (true, mapping tag (put_field (scalar key) (clone value) content))
  ]
  set_mapping_path key (next ∷ path) value (mapping tag content) =
      let existing = opened (field_value key content) in
      let inner = set_mapping_path next path value existing in
      if is_mapping existing then set_child key tag content inner else inl (not_mapping key)
  set_mapping_path key path value _ = inl parent_not_mapping

-- removeMappingPath: a mapping left empty goes too.
unfoldable pub remove_mapping_path : Text → List Text → Node → ConfigError ⊎ (Bool × Node)
unfolding remove_mapping_key put_field field_value empty_yaml_node empty_node
remove_mapping_path key [] (mapping tag content) =
    inr (remove_mapping_key (mapping tag content) key)
remove_mapping_path key (next ∷ path) (mapping tag content) = elim (field_value key content) [
  | none ↦ inr (false, mapping tag content)
  | some existing ↦
      let inner = remove_mapping_path next path existing in
      if empty_yaml_node (some existing)
      then inr (false, mapping tag content)
      else if is_mapping existing
      then remove_child key tag content inner
      else inl (not_mapping key)
]
remove_mapping_path key path _ = inl parent_not_mapping
