-- ===== src/Host/PluginLock.antt =====
-- app/host/plugin_lock.go: the lock file's records and their changes. What golang.org/x/mod says of a
-- module's path and version is the argument `rules`. An error is a value with its parts; its text is
-- not modelled.
pub mod Checks
pub mod Valid
pub mod Loop
pub mod Changes
pub mod AddRemove
pub mod Defaults
use anybot.Base.{
  ℕ, ◌⊎◌, inl, inr, Bool, true, false, not, ◌&&◌, ◌||◌, Option, none, some, List, [], ◌∷◌, ◌++◌,
  map, Text, codes, if◌then◌else◌,
}
use anybot.Base.{
  trim_space, contains, strip_prefix, is_some, is_empty, eqb, ◌==◌, Dict, lookup, insert,
  text_before,
}
use anybot.Sdk.PluginId.{IdError, validate_plugin_id}

pub record PluginInstall : Type 0 where
  pub id : Text
  pub builtin : Text
  pub go_module : Text
  pub version : Text
  pub replace : Text

pub record PluginLock : Type 0 where
  pub go_module : Text
  pub plugins : List PluginInstall

pub data LockError : Type 0 where
  id_required source_required module_required replace_and_clear : LockError
  id_invalid : Text → IdError → LockError
  id_not_generated id_exists not_found spec_malformed : Text → LockError
  unknown_builtin builtin_with_version builtin_updated : Text → LockError
  path_invalid : Text → Text → LockError
  version_invalid : Text → Text → Text → LockError
  version_conflict : Text → Text → LockError
  not_generated : Text → LockError
  module_shared : PluginInstall → PluginInstall → LockError
  -- an error of the file system, the encoder or the random source
  outside : Text → LockError

-- modmodule.CheckPath and modmodule.Check: the text of the error.
pub record ModuleRules : Type 0 where
  pub check_path : Text → Option Text
  pub check_version : Text → Text → Option Text

-- BuiltinPlugins: the sources.
abbrev pub builtin_sources : List Text
builtin_sources = codes "help" ∷ codes "echo" ∷ codes "admin" ∷ codes "ratelimit" ∷ []

-- BuiltinFactory: whether there is one.
unfoldable pub is_builtin : Text → Bool
unfolding contains
is_builtin source = contains builtin_sources source

abbrev pub default_host_module : Text
default_host_module = codes "anybot.local/bot"

-- strings.LastIndex of one character: what stands before it and behind it.
unfoldable pub cut_last : ℕ → Text → Option (Text × Text)
cut_last sep [] = none
cut_last sep (c ∷ s) = elim (cut_last sep s) [
  | some (before, after) ↦ some (c ∷ before, after)
  | none ↦ if eqb c sep then some ([], s) else none
]

-- ParsePluginModuleSpec
unfoldable pub parse_module_spec : Text → LockError ⊎ Text × Text
unfolding cut_last trim_space
parse_module_spec input =
    let spec = trim_space input in
    if is_empty spec then inl module_required else elim (cut_last b'@' spec) [
      | none ↦ inr (spec, [])
      | some (before, after) ↦
          if is_empty (trim_space before) || is_empty (trim_space after)
          then inl (spec_malformed spec)
          else inr (trim_space before, trim_space after)
    ]

-- The part of the loop of applyDefaults for a record with a module.
unfoldable pub default_module : PluginInstall → PluginInstall
unfolding parse_module_spec
default_module item =
    if is_empty item.go_module then item else elim (parse_module_spec item.go_module) [
      | inl _ ↦ item
      | inr (path, version) ↦ record item {
        go_module = path;
        version = if is_empty item.version then version else item.version;
      }
    ]

-- The body of the loop of applyDefaults.
unfoldable pub default_item : PluginInstall → PluginInstall
unfolding default_module
default_item item =
    let trimmed : PluginInstall = record item {
      builtin = trim_space item.builtin;
      go_module = trim_space item.go_module;
    } in
    let item' = default_module trimmed in record item' { replace = trim_space item'.replace }

-- applyDefaults
unfoldable pub apply_defaults : PluginLock → PluginLock
unfolding default_item
apply_defaults lock = record {
  go_module = if is_empty lock.go_module then default_host_module else lock.go_module;
  plugins = map default_item lock.plugins;
}

-- defaultPluginLock
abbrev pub default_plugin_lock : PluginLock
default_plugin_lock = record { go_module = default_host_module; plugins = [] }
