-- ===== src/Host/ConfigSync.antt =====
-- app/host/config_update.go: syncing the files of one plugin and of all plugins with their defaults.
-- A registry says what yaml makes of the default of a plugin's factory, where it has one. The
-- directory holds regular files, which os.ReadDir lists in the order of their names.
pub mod Laws
use anybot.Base.{
  ℕ, zero, suc, ◌+◌, ◌-◌, ◌≤◌, ◌<◌, ◌≡◌, refl, sym, ap, ◌∙◌, subst, ◌≢◌, ◌↔◌, ◌⊎◌, inl, inr, Bool,
  true, false, not, ◌&&◌, ◌||◌, Option, none, some, List, [], ◌∷◌, ◌++◌, map, arith, Bool-cases,
  Option-cases, Text, codes, if◌then◌else◌, is_empty, ◌==◌, contains, lookup, text_before, Dict,
  strip_prefix, insert, is_some,
}
use anybot.Sdk.PluginId.{validate_plugin_id}
use anybot.Sdk.Registry.{insert_text}
use anybot.Host.PluginLock.{cut_last, PluginLock, PluginInstall, apply_defaults}
use anybot.Host.Yaml.{Node}
use anybot.Host.YamlPaths.{ConfigError, id_required, bad_id, unknown_plugin, configured_twice}
use anybot.Host.ConfigEntry.{AsYaml, sync_plugin_config_node, plugin_entry_disabled}
use anybot.Host.ConfigFiles.{
  Directory, ConfigOutside, Loaded, saved_document, load_plugin_entry_document, save_yaml_document,
  update_entry, plugin_config_entry_path_for_update, saving,
}

-- registry.Factory(id), and the factory's default
abbrev pub Defaults : Type 0
Defaults = Text → Option AsYaml

pub record PluginConfigEntrySyncResult : Type 0 where
  pub is_changed : Bool
  pub is_available : Bool

pub record PluginConfigSyncResult : Type 0 where
  pub changed : ℕ
  pub skipped : List Text
  pub unknown_disabled : List Text

-- The error of ValidatePluginID, and of an empty id before it.
abbrev pub checked_id : Text → Option ConfigError
checked_id id =
    if is_empty id
    then some id_required
    else elim (validate_plugin_id id) [ some _ ↦ some (bad_id id) | none ↦ none ]

-- pluginConfigID: the file name without its extension, which is .yaml or .yml.
unfoldable pub plugin_config_id : Text → Option Text
unfolding cut_last ◌==◌ strip_prefix
plugin_config_id file = if file == codes "anybot.yaml" then none else elim (cut_last b'.' file) [
  | none ↦ none
  | some (name, ext) ↦
      if ext == codes "yaml" || ext == codes "yml"
      then if is_empty name || is_some (strip_prefix (codes ".") name) then none else some name
      else none
]

-- pluginConfigEntryLocation
pub record Location : Type 0 where
  pub id : Text
  pub path : Text
  pub loaded : Loaded

unfoldable pub file_names : Directory → List Text
unfolding insert_text
file_names [] = []
file_names ((name, _) ∷ dir) = insert_text name (file_names dir)

unfoldable pub insert_location : Location → List Location → List Location
unfolding text_before
insert_location l [] = l ∷ []
insert_location l (m ∷ rest) =
    if text_before m.id l.id then m ∷ insert_location l rest else l ∷ m ∷ rest

-- sort.Slice by different ids
unfoldable pub sort_locations : List Location → List Location
unfolding insert_location
sort_locations [] = []
sort_locations (l ∷ rest) = insert_location l (sort_locations rest)

unfoldable pub sort_texts : List Text → List Text
unfolding insert_text
sort_texts [] = []
sort_texts (t ∷ ts) = insert_text t (sort_texts ts)

abbrev pub keys {ℓ} : {A : Type ℓ} → Dict A → List Text
keys [] = []
keys ((key, _) ∷ d) = key ∷ keys d

abbrev pub no_result : PluginConfigSyncResult
no_result = record { changed = 0; skipped = []; unknown_disabled = [] }

-- A save, and what follows it where it fails in nothing.
abbrev save_then :
    Option ConfigError × Directory
    → (Directory → Option ConfigError × Directory)
    → Option ConfigError × Directory
save_then (some e, dir) f = (some e, dir)
save_then (none, dir) f = f dir

abbrev synced :
    (ConfigError ⊎ Bool) × Directory → (ConfigError ⊎ PluginConfigEntrySyncResult) × Directory
synced (inl e, dir) = (inl e, dir)
synced (inr c, dir) = (inr (record { is_changed = c; is_available = true }), dir)

-- The ids of the lock's plugins that have one.
abbrev lock_ids : List PluginInstall → List Text
lock_ids [] = []
lock_ids (item ∷ rest) = if is_empty item.id then lock_ids rest else item.id ∷ lock_ids rest

-- What the loop of syncPluginConfigEntries gathers: the result and the documents to save, by path.
abbrev pub Gathered : Type 0
Gathered = PluginConfigSyncResult × Dict Node

module _ (decode_bool : Text → Option Bool) (defaults : Defaults) (allow : List Text) where
  unfoldable pub sync_location : Location → Gathered → ConfigError ⊎ Gathered
  unfolding sync_plugin_config_node plugin_entry_disabled contains insert
  sync_location l (result, files) = elim (defaults l.id) [
    | none ↦
        if contains allow l.id
        then inr (record result { skipped = result.skipped ++ l.id ∷ [] }, files)
        else if plugin_entry_disabled decode_bool l.loaded.entry
        then inr (record result { unknown_disabled = result.unknown_disabled ++ l.id ∷ [] }, files)
        else inl (unknown_plugin l.id)
    | some default ↦ elim (sync_plugin_config_node l.id l.loaded.entry default) [
      | inl e ↦ inl e
      | inr (false, _) ↦ inr (result, files)
      | inr (true, entry') ↦ inr (
        record result { changed = suc result.changed },
        insert l.path (saved_document l.loaded entry') files,
      )
    ]
  ]

  unfoldable pub sync_locations : List Location → Gathered → ConfigError ⊎ Gathered
  unfolding sync_location
  sync_locations [] g = inr g
  sync_locations (l ∷ rest) g = elim (sync_location l g) [
    | inl e ↦ inl e
    | inr g' ↦ sync_locations rest g'
  ]

module _ (o : ConfigOutside) where
  -- SyncPluginConfigEntry
  unfoldable pub sync_plugin_config_entry :
      Defaults → Text → Directory → (ConfigError ⊎ PluginConfigEntrySyncResult) × Directory
  unfolding plugin_config_entry_path_for_update update_entry sync_plugin_config_node
      validate_plugin_id
  sync_plugin_config_entry defaults id dir = elim (checked_id id) [
    | some e ↦ (inl e, dir)
    | none ↦ elim (defaults id) [
      | none ↦ (inr (record { is_changed = false; is_available = false }), dir)
      | some default ↦ elim (plugin_config_entry_path_for_update o id dir) [
        | inl e ↦ (inl e, dir)
        | inr (name, false) ↦ (inr (record { is_changed = false; is_available = true }), dir)
        | inr (name, true) ↦
            synced
              (update_entry o (λ c. c) (λ entry. sync_plugin_config_node id entry default) name dir)
      ]
    ]
  ]

  -- The loop of pluginConfigEntryLocations over the files, by the ids that it has seen.
  unfoldable pub locate_all : List Text → List Text → Directory → ConfigError ⊎ List Location
  unfolding plugin_config_id load_plugin_entry_document validate_plugin_id contains
  locate_all seen [] dir = inr []
  locate_all seen (file ∷ files) dir = elim (plugin_config_id file) [
    | none ↦ locate_all seen files dir
    | some name ↦ elim (validate_plugin_id name) [
      | some _ ↦ inl (bad_id name)
      | none ↦
          if contains seen name
          then inl (configured_twice name)
          else elim (load_plugin_entry_document o file dir) [
            | inl e ↦ inl e
            | inr l ↦ elim (locate_all (name ∷ seen) files dir) [
              | inl e ↦ inl e
              | inr rest ↦ inr (record { id = name; path = file; loaded = l } ∷ rest)
            ]
          ]
    ]
  ]

  unfoldable pub plugin_config_entry_locations : Directory → ConfigError ⊎ List Location
  unfolding locate_all file_names sort_locations
  plugin_config_entry_locations dir = elim (locate_all [] (file_names dir) dir) [
    | inl e ↦ inl e
    | inr locations ↦ inr (sort_locations locations)
  ]

  -- The documents are saved in the order of their paths; the first error ends that.
  unfoldable pub save_all : List Text → Dict Node → Directory → Option ConfigError × Directory
  unfolding save_yaml_document lookup
  save_all [] files dir = (none, dir)
  save_all (path ∷ paths) files dir = elim (lookup path files) [
    | none ↦ save_all paths files dir
    | some doc ↦ save_then (save_yaml_document o path doc dir) (λ dir'. save_all paths files dir')
  ]

  module _ (decode_bool : Text → Option Bool) (defaults : Defaults) (allow : List Text) where
    -- syncPluginConfigEntries
    unfoldable pub sync_plugin_config_entries :
        Directory → (ConfigError ⊎ PluginConfigSyncResult) × Directory
    unfolding plugin_config_entry_locations sync_locations save_all insert_text
    sync_plugin_config_entries dir = elim (plugin_config_entry_locations dir) [
      | inl e ↦ (inl e, dir)
      | inr locations ↦ elim (sync_locations decode_bool defaults allow locations (no_result, [])) [
        | inl e ↦ (inl e, dir)
        | inr (result, files) ↦
            saving
              (record result {
                skipped = sort_texts result.skipped;
                unknown_disabled = sort_texts result.unknown_disabled;
              })
              (save_all (sort_texts (keys files)) files dir)
      ]
    ]

  -- SyncPluginConfigEntriesForLock: the plugins of the lock may be missing from the registry.
  unfoldable pub sync_plugin_config_entries_for_lock :
      (Text → Option Bool)
      → Defaults
      → PluginLock
      → Directory
      → (ConfigError ⊎ PluginConfigSyncResult) × Directory
  unfolding sync_plugin_config_entries apply_defaults
  sync_plugin_config_entries_for_lock decode_bool defaults lock dir =
      sync_plugin_config_entries decode_bool defaults (lock_ids (apply_defaults lock).plugins) dir
