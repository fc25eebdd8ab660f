-- ===== src/Host/ConfigFiles.antt =====
-- app/host/config_update.go: the plugin configurations on disk. A directory says what each file in
-- it holds; what the operating system refuses and the YAML codec are the fields of `ConfigOutside`.
-- An operation gives its result and the directory after it; writeFileAtomic puts a whole text in the
-- file's place or reports an error and leaves the file.
pub mod Laws
use anybot.Base.{
  ℕ, zero, suc, ◌+◌, ◌-◌, ◌≤◌, ◌<◌, ◌≡◌, refl, sym, ap, ◌∙◌, subst, ◌≢◌, ◌↔◌, ◌⊎◌, inl, inr, Bool,
  true, false, not, ◌&&◌, ◌||◌, Option, none, some, List, [], ◌∷◌, ◌++◌, map, arith, Bool-cases,
  Option-cases, Text, codes, if◌then◌else◌, Dict, lookup, is_some, insert, is_empty, delete, ltb,
}
use anybot.Sdk.PluginId.{validate_plugin_id}
use anybot.Host.Yaml.{
  Node, Nodes, no_nodes, item, no_node, document, empty_config_node, plugin_entry_node,
  document_root,
}
use anybot.Host.YamlPaths.{
  ConfigError, Marshal, id_required, bad_file_id, system, codec, path_required, assignment_required,
}
use anybot.Host.ConfigEntry.{
  PluginConfigAssignment, AsYaml, set_plugin_entry_enabled, set_plugin_config_assignments,
  remove_plugin_config_paths, sync_plugin_config_node,
}

abbrev pub Directory : Type 0
Directory = Dict Text

pub record ConfigOutside : Type 0 where
  -- os.Stat and os.ReadFile, but for ErrNotExist, the atomic write and os.Remove
  pub stat_error : Text → Option Text
  pub read_error : Text → Option Text
  pub write_error : Text → Option Text
  pub remove_error : Text → Option Text
  -- yaml.Unmarshal into a node, the encoder and yaml.Marshal
  pub decode : Text → Text ⊎ Node
  pub encode : Node → Text ⊎ Text
  pub marshal : Marshal

-- The file that a plugin's configuration is looked for in first, and the other.
abbrev pub yaml_file : Text → Text
yaml_file id = id ++ codes ".yaml"

abbrev pub yml_file : Text → Text
yml_file id = id ++ codes ".yml"

unfoldable pub plugin_config_entry_path : Text → ConfigError ⊎ Text
unfolding validate_plugin_id
plugin_config_entry_path id =
    if is_empty id
    then inl id_required
    else elim (validate_plugin_id id) [ some _ ↦ inl (bad_file_id id) | none ↦ inr (yaml_file id) ]

-- pluginConfigEntryCandidates of that path
abbrev pub plugin_config_entry_candidates : Text → List Text
plugin_config_entry_candidates id = yaml_file id ∷ yml_file id ∷ []

-- What the caller holds of a loaded file: the document that it saves, its entry, and whether the
-- entry is the document's own node, so that the document shows a change of it.
pub record Loaded : Type 0 where
  pub doc : Node
  pub entry : Node
  pub shared : Bool

-- A step on an entry, which says what came of it.
abbrev pub EntryStep : Type 0 → Type 0
EntryStep A = Node → ConfigError ⊎ (A × Node)

abbrev pub with_root : Node → Node → Node
with_root (document (item _ rest)) root = document (item root rest)
with_root doc root = doc

-- saveYAMLDocument(path, doc) once the entry was changed.
abbrev pub saved_document : Loaded → Node → Node
saved_document l entry' = if l.shared then with_root l.doc entry' else l.doc

abbrev root_of : Node → Node
root_of no_node = empty_config_node
root_of n = n

-- The document of a decoded file: its root, where it has none a mapping. A file with no document
-- decodes to Kind 0; its root is the function's variable `doc`, and the caller is given a copy of it.
unfoldable pub loaded_document : Node → Loaded
loaded_document (document no_nodes) = record {
  doc = document (item empty_config_node no_nodes);
  entry = empty_config_node;
  shared = true;
}
loaded_document (document (item n rest)) = record {
  doc = document (item (root_of n) rest);
  entry = root_of n;
  shared = true;
}
loaded_document n = record { doc = root_of n; entry = root_of n; shared = false }

abbrev pub new_document : Loaded
new_document = record {
  doc = document (item (plugin_entry_node empty_config_node) no_nodes);
  entry = plugin_entry_node empty_config_node;
  shared = true;
}

-- return value, saveYAMLDocument(…)
abbrev pub saving {ℓ} :
    {A : Type ℓ} → A → Option ConfigError × Directory → (ConfigError ⊎ A) × Directory
saving a (some e, dir) = (inl e, dir)
saving a (none, dir) = (inr a, dir)

module _ (o : ConfigOutside) where
  unfoldable pub find_entry_path : Text → List Text → Directory → ConfigError ⊎ (Text × Bool)
  find_entry_path default [] dir = inr (default, false)
  find_entry_path default (name ∷ names) dir =
      let rest = find_entry_path default names dir in
      elim (o.stat_error name) [
        | some e ↦ inl (system e)
        | none ↦ if is_some (lookup name dir) then inr (name, true) else rest
      ]

  -- pluginConfigEntryPathForUpdate
  unfoldable pub plugin_config_entry_path_for_update :
      Text → Directory → ConfigError ⊎ (Text × Bool)
  unfolding plugin_config_entry_path find_entry_path
  plugin_config_entry_path_for_update id dir = elim (plugin_config_entry_path id) [
    | inl e ↦ inl e
    | inr path ↦ find_entry_path path (plugin_config_entry_candidates id) dir
  ]

  unfoldable pub load_plugin_entry_document : Text → Directory → ConfigError ⊎ Loaded
  unfolding loaded_document lookup
  load_plugin_entry_document name dir = elim (o.read_error name) [
    | some e ↦ inl (system e)
    | none ↦ elim (lookup name dir) [
      | none ↦ inr new_document
      | some text ↦ elim (o.decode text) [
        | inl e ↦ inl (codec e)
        | inr doc ↦ inr (loaded_document doc)
      ]
    ]
  ]

  unfoldable pub save_yaml_document : Text → Node → Directory → Option ConfigError × Directory
  unfolding insert
  save_yaml_document name doc dir = elim (o.encode doc) [
    | inl e ↦ (some (codec e), dir)
    | inr text ↦ elim (o.write_error name) [
      | some e ↦ (some (system e), dir)
      | none ↦ (none, insert name text dir)
    ]
  ]

  -- Load the entry, take the step, and save the document where the step changed something.
  unfoldable pub update_entry :
      {A : Type 0} → (A → Bool) → EntryStep A → Text → Directory → (ConfigError ⊎ A) × Directory
  unfolding load_plugin_entry_document save_yaml_document
  update_entry changed step name dir = elim (load_plugin_entry_document name dir) [
    | inl e ↦ (inl e, dir)
    | inr l ↦ elim (step l.entry) [
      | inl e ↦ (inl e, dir)
      | inr (a, entry') ↦
          if changed a
          then saving a (save_yaml_document name (saved_document l entry') dir)
          else (inr a, dir)
    ]
  ]

  -- EnsurePluginConfigEntry
  unfoldable pub ensure_plugin_config_entry : Text → Directory → (ConfigError ⊎ Bool) × Directory
  unfolding plugin_config_entry_path_for_update save_yaml_document
  ensure_plugin_config_entry id dir = elim (plugin_config_entry_path_for_update id dir) [
    | inl e ↦ (inl e, dir)
    | inr (name, true) ↦ (inr false, dir)
    | inr (name, false) ↦ saving true (save_yaml_document name new_document.doc dir)
  ]

  -- SetPluginEnabled
  unfoldable pub set_plugin_enabled : Text → Bool → Directory → (ConfigError ⊎ Bool) × Directory
  unfolding plugin_config_entry_path_for_update update_entry set_plugin_entry_enabled
  set_plugin_enabled id enabled dir = elim (plugin_config_entry_path_for_update id dir) [
    | inl e ↦ (inl e, dir)
    | inr (name, _) ↦
        update_entry (λ c. c) (λ entry. set_plugin_entry_enabled entry id enabled) name dir
  ]

  -- SetPluginConfigValues
  unfoldable pub set_plugin_config_values :
      Text → List PluginConfigAssignment → Directory → (ConfigError ⊎ Bool) × Directory
  unfolding plugin_config_entry_path_for_update update_entry set_plugin_config_assignments
  set_plugin_config_values id assignments dir =
      if is_empty assignments
      then (inl assignment_required, dir)
      else elim (plugin_config_entry_path_for_update id dir) [
        | inl e ↦ (inl e, dir)
        | inr (name, _) ↦
            update_entry (λ c. c)
              (λ entry. set_plugin_config_assignments o.marshal id entry assignments) name dir
      ]

  -- removePluginConfigValues
  unfoldable pub remove_plugin_config_values :
      Text → List (List Text) → Directory → (ConfigError ⊎ ℕ) × Directory
  unfolding plugin_config_entry_path_for_update update_entry remove_plugin_config_paths
  remove_plugin_config_values id paths dir =
      if is_empty paths
      then (inl path_required, dir)
      else elim (plugin_config_entry_path_for_update id dir) [
        | inl e ↦ (inl e, dir)
        | inr (name, false) ↦ (inr 0, dir)
        | inr (name, true) ↦
            update_entry (λ n. ltb 0 n) (λ entry. remove_plugin_config_paths id entry paths) name
              dir
      ]

  -- RemovePluginConfigEntry
  unfoldable pub remove_plugin_config_entry : Text → Directory → (ConfigError ⊎ Bool) × Directory
  unfolding plugin_config_entry_path_for_update delete
  remove_plugin_config_entry id dir = elim (plugin_config_entry_path_for_update id dir) [
    | inl e ↦ (inl e, dir)
    | inr (name, false) ↦ (inr false, dir)
    | inr (name, true) ↦ elim (o.remove_error name) [
      | some e ↦ (inl (system e), dir)
      | none ↦ (inr true, delete name dir)
    ]
  ]
