-- ===== src/Host/ConfigTests.antt =====
-- Runs of the plugin configurations' model at concrete inputs.
use anybot.Host.ConfigSync.{Defaults, plugin_config_id, sync_plugin_config_entries}
use anybot.Host.ConfigSync.Laws.{HasNoFactory, sync_plugin_config_entries-other}
use anybot.Base.{contains_any, has_char, trim_space}
use anybot.Host.Yaml.{remove_field, alias}
use anybot.Base.{
  ◌≡◌, refl, ap, ◌⊎◌, inl, inr, true, false, ◌&&◌, none, some, List, [], ◌∷◌, ◌++◌, arith, Text,
  codes, if◌then◌else◌, eq_iff, lookup, ◌==◌, insert,
}
use Prim.Native.String.{String}
use anybot.Host.Yaml.{
  Node, Fields, no_node, document, item, no_nodes, mapping, sequence, scalar_node, no_fields, field,
  scalar, bool_node, bool_tag, map_tag, str_tag, null_tag, node_text, mapping_value, field_value,
  is_null,
}
use anybot.Host.Yaml.Reads.{KeysOnce}
use anybot.Host.YamlPaths.{Marshal, remove_mapping_path, codec}
use anybot.Host.YamlPaths.SetLaws.{value_at, diverges}
use anybot.Host.YamlPaths.RemoveLaws.{Removed, remove_mapping_path_lem}
use anybot.Host.YamlDefaults.{merge_fields}
use anybot.Host.ConfigEntry.{
  PluginConfigAssignment, config_key, enabled_key, set_plugin_config_assignments,
  sync_plugin_config_node, AsYaml, default_config_node,
}
use anybot.Host.ConfigEntry.Laws.{Assigned, set_plugin_config_assignments_lem}
use anybot.Host.ConfigEntry.Sync.{sync_plugin_config_node-kept, sync_plugin_config_node-twice}
use anybot.Host.ConfigFiles.{
  Directory, ConfigOutside, set_plugin_enabled, loaded_document, load_plugin_entry_document,
  plugin_config_entry_path_for_update, yaml_file,
}
use anybot.Host.ConfigFiles.Laws.{
  ReadsBack, Switched, set_plugin_enabled-load, set_plugin_enabled_blank,
}
use anybot.Host.ConfigChanges.{PluginConfigChange, apply_plugin_config_change, refused}
use anybot.Host.ConfigChanges.Laws.{apply_plugin_config_change_keeps}
use anybot.Host.ConfigFiles.{saved_document}
use anybot.Host.YamlEnv.{targets, resolve, HasNoEnv, env_tag}
use anybot.Host.YamlEnv.Laws.{resolve_lem}

-- key: value, in front of other pairs
abbrev pair : String → Node → Fields → Fields
pair key value rest = field (scalar (codes key)) value rest

abbrev int_node : String → Node
int_node text = scalar_node (codes "!!int") (codes text)

abbrev old_config : Node
old_config = mapping map_tag (
    pair "limit" (int_node "3")
      (pair "reply" (mapping map_tag (pair "text" (scalar (codes "hi")) no_fields)) no_fields))

abbrev old_entry : Node
old_entry = mapping map_tag (pair "enabled" (bool_node true) (pair "config" old_config no_fields))

abbrev defaults : Node
defaults =
    mapping map_tag (pair "limit" (int_node "5") (pair "name" (scalar (codes "bot")) no_fields))

abbrev new_config : Node
new_config = mapping map_tag (
    pair "limit" (int_node "3") (
      pair "reply" (mapping map_tag (pair "text" (scalar (codes "yo")) no_fields))
        (pair "name" (scalar (codes "me")) no_fields)))

abbrev new_entry : Node
new_entry = mapping map_tag (pair "enabled" (bool_node true) (pair "config" new_config no_fields))

abbrev text_marshal : Marshal
text_marshal n = some (node_text n)

abbrev changes : List PluginConfigAssignment
changes =
    record { path = codes "reply" ∷ codes "text" ∷ []; value = scalar (codes "yo") }
    ∷ record { path = codes "name" ∷ []; value = scalar (codes "me") }
    ∷ []

assigned_runs :
    set_plugin_config_assignments text_marshal (codes "p") old_entry changes ≡ inr (true, new_entry)
unfolding set_plugin_config_assignments ◌==◌
assigned_runs = refl

set_plugin_config_assignments_lem_example : Assigned text_marshal old_entry new_entry changes
unfolding diverges ◌==◌
set_plugin_config_assignments_lem_example =
    set_plugin_config_assignments_lem text_marshal (codes "p") old_entry new_entry changes true
      ((refl, tt), (tt, tt)) assigned_runs

abbrev without_text : Node
without_text = mapping map_tag (pair "limit" (int_node "3") no_fields)

removed_runs :
    remove_mapping_path (codes "reply") (codes "text" ∷ []) old_config ≡ inr (true, without_text)
unfolding remove_mapping_path ◌==◌ remove_field
removed_runs = refl

old_config-KeysOnce : KeysOnce old_config
unfolding KeysOnce field_value ◌==◌
old_config-KeysOnce = ((refl, (refl, tt)), (tt, (((refl, tt), (tt, tt)), tt)))

remove_mapping_path_lem_example :
    Removed (codes "reply" ∷ codes "text" ∷ []) old_config true without_text
remove_mapping_path_lem_example =
    remove_mapping_path_lem (codes "reply") (codes "text" ∷ []) old_config without_text true
      old_config-KeysOnce removed_runs

abbrev old_fields : Fields
old_fields = pair "limit" (int_node "3") (pair "reply" (scalar_node null_tag []) no_fields)

abbrev default_fields : Fields
default_fields = pair "limit" (int_node "5") (pair "name" (scalar (codes "bot")) no_fields)

abbrev given_default : AsYaml
given_default = some (inr (document (item defaults no_nodes)))

abbrev synced_entry : Node
synced_entry = mapping map_tag (
    pair "enabled" (bool_node true) (
      pair "config"
        (mapping map_tag (
          pair "limit" (int_node "3") (
            pair "reply" (mapping map_tag (pair "text" (scalar (codes "hi")) no_fields))
              (pair "name" (scalar (codes "bot")) no_fields))))
        no_fields))

sync_runs : sync_plugin_config_node (codes "p") old_entry given_default ≡ inr (true, synced_entry)
unfolding sync_plugin_config_node field_value ◌==◌ merge_fields
sync_runs = refl

sync_again :
    sync_plugin_config_node (codes "p") synced_entry given_default ≡ inr (false, synced_entry)
unfolding sync_plugin_config_node field_value ◌==◌ merge_fields
sync_again = refl

default_runs : default_config_node given_default ≡ inr defaults
unfolding default_config_node
default_runs = refl

defaults-KeysOnce : KeysOnce defaults
unfolding KeysOnce field_value ◌==◌
defaults-KeysOnce = ((refl, (refl, tt)), (tt, (tt, tt)))

limit_held : value_at (config_key ∷ codes "limit" ∷ []) old_entry ≡ some (int_node "3")
unfolding mapping_value field_value ◌==◌
limit_held = refl

sync_plugin_config_node-kept_example :
    value_at (config_key ∷ codes "limit" ∷ []) synced_entry ≡ some (int_node "3")
unfolding is_null ◌==◌
sync_plugin_config_node-kept_example =
    sync_plugin_config_node-kept (codes "p") old_entry synced_entry defaults (int_node "3") true
      given_default (codes "limit" ∷ []) default_runs defaults-KeysOnce sync_runs limit_held refl

sync_plugin_config_node-twice_example :
    mapping_value synced_entry config_key ≡ mapping_value synced_entry config_key
sync_plugin_config_node-twice_example =
    sync_plugin_config_node-twice (codes "p") old_entry synced_entry synced_entry defaults true
      false given_default default_runs defaults-KeysOnce sync_runs sync_again config_key

-- A codec of the documents that hold a switch and nothing else: the text of its value.
abbrev unsupported : Text ⊎ Text
unsupported = inl (codes "unsupported")

abbrev switch_fields : Text → Fields → Text ⊎ Text
switch_fields t (field (scalar_node a b) (scalar_node c d) no_fields) =
    if t == map_tag && a == str_tag && b == enabled_key && c == bool_tag then inr d else unsupported
switch_fields t _ = unsupported

abbrev encode_switch : Node → Text ⊎ Text
encode_switch (document (item (mapping t content) no_nodes)) = switch_fields t content
encode_switch _ = unsupported

abbrev switch_document : Text → Node
switch_document text = document (
    item (mapping map_tag (field (scalar enabled_key) (scalar_node bool_tag text) no_fields))
      no_nodes)

abbrev switch_files : ConfigOutside
switch_files = record {
  stat_error = λ _. none;
  read_error = λ _. none;
  write_error = λ _. none;
  remove_error = λ _. none;
  decode = λ text. inr (switch_document text);
  encode = encode_switch;
  marshal = text_marshal;
}

switch_fields-back :
    (t : Text) (content : Fields) (text : Text)
    → switch_fields t content ≡ inr text
    → switch_document text ≡ document (item (mapping t content) no_nodes)
switch_fields-back t (field (scalar_node a b) (scalar_node c d) no_fields) text e =
    ground (arith, e, eq_iff t map_tag, eq_iff a str_tag, eq_iff b enabled_key, eq_iff c bool_tag)
switch_fields-back t content text e = absurd (ground (arith, e))

switch_files-ReadsBack : (doc : Node) → ReadsBack switch_files doc
switch_files-ReadsBack (document (item (mapping t content) no_nodes)) text e =
    ap inr (switch_fields-back t content text e)
switch_files-ReadsBack doc text e = absurd (ground (arith, e))

abbrev test_id : Text
test_id = codes "plg_aaaaaaaaaaaaaaaaaaaaaaaaaa"

abbrev test_file : Text
test_file = yaml_file test_id

abbrev before : Directory
before = (test_file, codes "true") ∷ (codes "b.yaml", codes "true") ∷ []

abbrev after : Directory
after = (test_file, codes "false") ∷ (codes "b.yaml", codes "true") ∷ []

path_runs : plugin_config_entry_path_for_update switch_files test_id before ≡ inr (test_file, true)
unfolding plugin_config_entry_path_for_update ◌==◌ trim_space contains_any has_char lookup
path_runs = refl

load_runs :
    load_plugin_entry_document switch_files test_file before
    ≡ inr (loaded_document (switch_document (codes "true")))
unfolding load_plugin_entry_document ◌==◌
load_runs = refl

switch_runs : set_plugin_enabled switch_files test_id false before ≡ (inr true, after)
unfolding set_plugin_enabled ◌==◌ trim_space contains_any has_char field_value
switch_runs = refl

set_plugin_enabled-load_example :
    Switched switch_files false test_file
      (loaded_document (switch_document (codes "true")))
      before
      after
unfolding loaded_document
set_plugin_enabled-load_example =
    set_plugin_enabled-load switch_files test_id false true true test_file before after
      (loaded_document (switch_document (codes "true")))
      (λ entry _.
        switch_files-ReadsBack
          (saved_document (loaded_document (switch_document (codes "true"))) entry))
      path_runs load_runs refl switch_runs

-- A file without a document decodes to nothing.
abbrev blank_files : ConfigOutside
blank_files = record switch_files { decode = λ _. inr no_node; encode = λ _. inr (codes "{}") }

blank_path : plugin_config_entry_path_for_update blank_files test_id before ≡ inr (test_file, true)
unfolding plugin_config_entry_path_for_update ◌==◌ trim_space contains_any has_char lookup
blank_path = refl

set_plugin_enabled_blank_example :
    set_plugin_enabled blank_files test_id true before
    ≡ (inr true, insert test_file (codes "{}") before)
unfolding lookup ◌==◌
set_plugin_enabled_blank_example =
    set_plugin_enabled_blank blank_files test_id true true test_file (codes "true") (codes "{}")
      before blank_path refl refl refl refl refl

-- What the codec does not support is not saved.
abbrev one_change : PluginConfigChange
one_change = record {
  assignments = record { path = codes "name" ∷ []; value = scalar (codes "me") } ∷ [];
  reset_paths = [];
}

change_runs :
    apply_plugin_config_change switch_files test_id one_change before
    ≡ (inl (refused (codec (codes "unsupported"))), before)
unfolding apply_plugin_config_change ◌==◌ trim_space contains_any has_char
change_runs = refl

apply_plugin_config_change_keeps_example : before ≡ before
apply_plugin_config_change_keeps_example =
    apply_plugin_config_change_keeps switch_files test_id one_change before before
      (refused (codec (codes "unsupported"))) change_runs

abbrev test_env : Text → Text
test_env name = codes "the " ++ name

abbrev env_tree : Node
env_tree = sequence (codes "!!seq") (
    item (scalar_node env_tag (codes " TOKEN "))
      (item (alias (codes "x") (scalar_node env_tag (codes "KEY"))) no_nodes))

abbrev resolved_tree : Node
resolved_tree = sequence (codes "!!seq") (
    item (scalar (codes "the TOKEN"))
      (item (alias (codes "x") (scalar_node env_tag (codes "KEY"))) no_nodes))

resolve_runs : resolve test_env [] env_tree ≡ inr resolved_tree
unfolding resolve
resolve_runs = refl

resolve_lem_example :
    HasNoEnv resolved_tree
    × (targets resolved_tree ≡ targets env_tree)
    × (resolve test_env [] resolved_tree ≡ inr resolved_tree)
resolve_lem_example = resolve_lem test_env [] env_tree resolved_tree resolve_runs

-- Only one plugin has a factory.
abbrev one_factory : Defaults
one_factory id = if id == test_id then some given_default else none

abbrev with_main : Directory
with_main = (test_file, codes "false") ∷ (codes "anybot.yaml", codes "true") ∷ []

main-HasNoFactory : HasNoFactory one_factory (codes "anybot.yaml")
unfolding plugin_config_id
main-HasNoFactory id e = absurd (ground (arith, e))

sync_plugin_config_entries-other_example :
    lookup
      (codes "anybot.yaml")
      (sync_plugin_config_entries switch_files (λ _. none) one_factory [] with_main).1
    ≡ lookup (codes "anybot.yaml") with_main
sync_plugin_config_entries-other_example =
    sync_plugin_config_entries-other (λ _. none) one_factory [] (codes "anybot.yaml") switch_files
      with_main main-HasNoFactory
