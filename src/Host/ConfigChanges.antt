-- ===== src/Host/ConfigChanges.antt =====
-- app/host/config_update.go, ParsePluginConfigChanges and ApplyPluginConfigChange: the arguments of
-- `plugin config`, which write fields (`key=value`) or reset them (`-reset key`), never both. A value
-- is read by YAML's rules, which is the parameter `decode`.
pub mod Laws
use anybot.Base.{
  ℕ, zero, suc, ◌+◌, ◌-◌, ◌≤◌, ◌<◌, ◌≡◌, refl, sym, ap, ◌∙◌, subst, ◌≢◌, ◌↔◌, ◌⊎◌, inl, inr, Bool,
  true, false, not, ◌&&◌, ◌||◌, Option, none, some, List, [], ◌∷◌, ◌++◌, map, arith, Bool-cases,
  Option-cases, Text, codes, if◌then◌else◌, ◌==◌, eqb, is_empty, has_char, strip_prefix, ltb,
  length,
}
use anybot.Sdk.ConfigPath.{ConfigPathError, parse_config_path}
use anybot.Host.Yaml.{Node, scalar_node, null_tag, document_root, clone, no_node}
use anybot.Host.YamlPaths.{ConfigError}
use anybot.Host.ConfigEntry.{PluginConfigAssignment}
use anybot.Host.ConfigFiles.{
  Directory, ConfigOutside, set_plugin_config_values, remove_plugin_config_values,
}

pub record PluginConfigChange : Type 0 where
  pub assignments : List PluginConfigAssignment
  pub reset_paths : List (List Text)

pub data ChangeError : Type 0 where
  needs_value : Text → ChangeError
  both_kinds : ChangeError
  change_required : ChangeError
  no_equals : Text → ChangeError
  bad_path : ConfigPathError → ChangeError
  bad_value : List Text → Text → ChangeError
  refused : ConfigError → ChangeError

unfoldable pub is_empty_change : PluginConfigChange → Bool
is_empty_change change = is_empty change.assignments && is_empty change.reset_paths

-- ParsePluginConfigPath
unfoldable pub parse_plugin_config_path : Text → ChangeError ⊎ List Text
unfolding parse_config_path
parse_plugin_config_path input = elim (parse_config_path input) [
  | inl e ↦ inl (bad_path e)
  | inr path ↦ inr path
]

-- strings.Cut(input, "=")
unfoldable pub cut_equals : Text → Option (Text × Text)
cut_equals [] = none
cut_equals (c ∷ s) =
    let rest = cut_equals s in
    if eqb c b'='
    then some ([], s)
    else elim rest [ none ↦ none | some (key, value) ↦ some (c ∷ key, value) ]

-- How the loop reads an argument: `-reset`, `-reset=path` or another.
pub data Argument : Type 0 where
  reset_next : Argument
  reset_to : Text → Argument
  other : Argument

unfoldable pub argument_of : Text → Argument
unfolding ◌==◌ strip_prefix
argument_of arg =
    if arg == codes "-reset" || arg == codes "--reset"
    then reset_next
    else elim (strip_prefix (codes "-reset=") arg) [
      | some path ↦ reset_to path
      | none ↦ elim (strip_prefix (codes "--reset=") arg) [
        | some path ↦ reset_to path
        | none ↦ other
      ]
    ]

-- The loop's flag resetMode; behind `-reset` the next argument is its value.
pub data Mode : Type 0 where
  assigning resetting : Mode
  awaiting : Text → Mode

abbrev pub add_reset : List Text → PluginConfigChange → PluginConfigChange
add_reset path change = record {
  assignments = change.assignments;
  reset_paths = change.reset_paths ++ path ∷ [];
}

abbrev pub add_assignment : PluginConfigAssignment → PluginConfigChange → PluginConfigChange
add_assignment a change = record {
  assignments = change.assignments ++ a ∷ [];
  reset_paths = change.reset_paths;
}

abbrev pub no_change : PluginConfigChange
no_change = record { assignments = []; reset_paths = [] }

abbrev pub reset_to_path :
    PluginConfigChange → ChangeError ⊎ List Text → ChangeError ⊎ (Mode × PluginConfigChange)
reset_to_path change (inl e) = inl e
reset_to_path change (inr path) = inr (resetting, add_reset path change)

module _ (decode : Text → Text ⊎ Node) where
  -- parseYAMLValue
  unfoldable pub parse_yaml_value : Text → Text ⊎ Node
  unfolding document_root clone
  parse_yaml_value input = elim (decode (input ++ b'\n' ∷ [])) [
    | inl e ↦ inl e
    | inr doc ↦ elim (document_root doc) [
      | no_node ↦ inr (scalar_node null_tag [])
      | root ↦ inr (clone root)
    ]
  ]

  unfoldable pub parse_plugin_config_assignment : Text → ChangeError ⊎ PluginConfigAssignment
  unfolding cut_equals parse_plugin_config_path parse_yaml_value
  parse_plugin_config_assignment input = elim (cut_equals input) [
    | none ↦ inl (no_equals input)
    | some (key, text) ↦ elim (parse_plugin_config_path key) [
      | inl e ↦ inl e
      | inr p ↦ elim (parse_yaml_value text) [
        | inl e ↦ inl (bad_value p e)
        | inr node ↦ inr (record { path = p; value = node })
      ]
    ]
  ]

  -- One turn of the loop, by the mode, the change so far and how the argument reads.
  unfoldable pub parse_resetting :
      PluginConfigChange → Text → Argument → ChangeError ⊎ (Mode × PluginConfigChange)
  unfolding parse_plugin_config_path has_char
  parse_resetting change arg reset_next = inr (awaiting arg, change)
  parse_resetting change arg (reset_to text) = reset_to_path change (parse_plugin_config_path text)
  parse_resetting change arg other =
      if has_char b'=' arg
      then inl both_kinds
      else reset_to_path change (parse_plugin_config_path arg)

  unfoldable pub parse_assigning :
      PluginConfigChange → Text → Argument → ChangeError ⊎ (Mode × PluginConfigChange)
  unfolding parse_plugin_config_path parse_plugin_config_assignment
  parse_assigning change arg reset_next = inr (awaiting arg, change)
  parse_assigning change arg (reset_to text) = reset_to_path change (parse_plugin_config_path text)
  parse_assigning change arg other = elim (parse_plugin_config_assignment arg) [
    | inl e ↦ inl e
    | inr a ↦ inr (assigning, add_assignment a change)
  ]

  unfoldable pub parse_argument :
      Mode → PluginConfigChange → Text → ChangeError ⊎ (Mode × PluginConfigChange)
  unfolding argument_of parse_resetting parse_assigning parse_plugin_config_path
  parse_argument (awaiting _) change arg = reset_to_path change (parse_plugin_config_path arg)
  parse_argument resetting change arg = parse_resetting change arg (argument_of arg)
  parse_argument assigning change arg = parse_assigning change arg (argument_of arg)

  unfoldable pub parse_arguments :
      Mode → PluginConfigChange → List Text → ChangeError ⊎ PluginConfigChange
  unfolding parse_argument
  parse_arguments (awaiting name) change [] = inl (needs_value name)
  parse_arguments mode change [] = inr change
  parse_arguments mode change (arg ∷ rest) = elim (parse_argument mode change arg) [
    | inl e ↦ inl e
    | inr (mode', change') ↦ parse_arguments mode' change' rest
  ]

  unfoldable pub parse_plugin_config_changes : List Text → ChangeError ⊎ PluginConfigChange
  unfolding parse_arguments
  parse_plugin_config_changes args = elim (parse_arguments assigning no_change args) [
    | inl e ↦ inl e
    | inr change ↦
        if not (is_empty change.assignments) && not (is_empty change.reset_paths)
        then inl both_kinds
        else inr change
  ]

pub record PluginConfigChangeResult : Type 0 where
  pub is_reset : Bool
  pub is_changed : Bool
  pub count : ℕ

abbrev pub reset_result : ℕ → PluginConfigChangeResult
reset_result n = record { is_reset = true; is_changed = ltb 0 n; count = n }

abbrev pub write_result : PluginConfigChange → Bool → PluginConfigChangeResult
write_result change c = record {
  is_reset = false;
  is_changed = c;
  count = length change.assignments;
}

abbrev pub as_result {ℓ κ} :
    {A : Type ℓ} {B : Type κ}
    → (A → B)
    → (ConfigError ⊎ A) × Directory
    → (ChangeError ⊎ B) × Directory
as_result f (inl e, dir) = (inl (refused e), dir)
as_result f (inr a, dir) = (inr (f a), dir)

-- ApplyPluginConfigChange
unfoldable pub apply_plugin_config_change :
    ConfigOutside
    → Text
    → PluginConfigChange
    → Directory
    → (ChangeError ⊎ PluginConfigChangeResult) × Directory
unfolding set_plugin_config_values remove_plugin_config_values
apply_plugin_config_change o id change dir =
    if not (is_empty change.assignments) && not (is_empty change.reset_paths)
    then (inl both_kinds, dir)
    else if not (is_empty change.reset_paths)
    then as_result reset_result (remove_plugin_config_values o id change.reset_paths dir)
    else if not (is_empty change.assignments)
    then as_result (write_result change) (set_plugin_config_values o id change.assignments dir)
    else (inl change_required, dir)
