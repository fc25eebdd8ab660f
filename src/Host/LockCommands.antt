-- ===== src/Host/LockCommands.antt =====
-- app/host/plugin_lock.go: AddPluginInstall, UpdatePluginInstall, RemovePluginInstall and
-- EnsurePluginHostForce. A command returns its result and the disk that it leaves. The callees write
-- the defaults into the records that the command holds; `touched` is the lock behind such a call.
pub mod Run
pub mod Keeps
pub mod Safety
pub mod Foreign
use anybot.Base.{
  ℕ, zero, suc, ◌⊎◌, inl, inr, Bool, true, false, not, ◌&&◌, ◌||◌, Option, none, some, List, [],
  ◌∷◌, map, Text, if◌then◌else◌,
}
use anybot.Base.{is_empty, ◌==◌, trim_space}
use anybot.Host.PluginLock.{
  PluginInstall, PluginLock, LockError, apply_defaults, parse_module_spec, is_builtin,
  source_required, builtin_with_version, unknown_builtin, version_conflict,
}

-- AddPluginInstallOptions
pub record AddOptions : Type 0 where
  pub id : Text
  pub builtin : Text
  pub go_module : Text
  pub version : Text
  pub replace : Text

-- UpdatePluginInstallOptions
pub record UpdateOptions : Type 0 where
  pub id : Text
  pub version : Text
  pub replace : Text
  pub set_version : Bool
  pub set_replace : Bool
  pub clear_replace : Bool

abbrev pub touched : PluginLock → PluginLock
touched lock = record lock { plugins = (apply_defaults (apply_defaults lock)).plugins }

-- The part of AddPluginInstall for a module.
unfoldable pub add_module : AddOptions → LockError ⊎ AddOptions
unfolding parse_module_spec
add_module opts = elim (parse_module_spec opts.go_module) [
  | inl e ↦ inl e
  | inr (path, version) ↦
      if not (is_empty opts.version) && not (is_empty version) && not (opts.version == version)
      then inl (version_conflict version opts.version)
      else inr (record opts {
        go_module = path;
        version = if is_empty opts.version then version else opts.version;
      })
]

-- What AddPluginInstall makes of its options before it reads the lock.
unfoldable pub add_source : AddOptions → LockError ⊎ AddOptions
unfolding add_module trim_space is_builtin
add_source given =
    let opts : AddOptions = record given {
      builtin = trim_space given.builtin;
      go_module = trim_space given.go_module;
    } in
    elim (is_empty opts.builtin) [
      | true ↦ if is_empty opts.go_module then inl source_required else add_module opts
      | false ↦
          if not (is_empty opts.go_module)
          then inl source_required
          else if not (is_empty opts.version) || not (is_empty opts.replace)
          then inl (builtin_with_version opts.builtin)
          else if not (is_builtin opts.builtin)
          then inl (unknown_builtin opts.builtin)
          else inr opts
    ]

-- The record that AddPluginInstall adds.
abbrev pub new_install : AddOptions → Text → PluginInstall
new_install opts id = record {
  id = id;
  builtin = opts.builtin;
  go_module = opts.go_module;
  version = opts.version;
  replace = trim_space opts.replace;
}

-- The first record with the id, and its index.
unfoldable pub find_plugin : Text → List PluginInstall → Option (ℕ × PluginInstall)
find_plugin id [] = none
find_plugin id (p ∷ ps) =
    let rest = find_plugin id ps in
    if p.id == id then some (0, p) else elim rest [ none ↦ none | some (i, q) ↦ some (suc i, q) ]

-- `updated`, before it is written into the lock.
unfoldable pub updated_install : UpdateOptions → PluginInstall → PluginInstall
unfolding trim_space
updated_install opts original = record original {
  version = if opts.set_version then trim_space opts.version else original.version;
  replace =
      if opts.clear_replace
      then []
      else if opts.set_replace
      then trim_space opts.replace
      else original.replace;
}

-- The body of the loop that writes it: every record of the same module has its version and its
-- replacement.
unfoldable pub update_one : PluginInstall → PluginInstall → PluginInstall → PluginInstall
update_one original updated p =
    if p.go_module == original.go_module
    then record p { version = updated.version; replace = updated.replace }
    else if p.id == original.id
    then updated
    else p

abbrev pub same_install : PluginInstall → PluginInstall → Bool
same_install p q =
    p.id == q.id
    && p.builtin == q.builtin
    && p.go_module == q.go_module
    && p.version == q.version
    && p.replace == q.replace

-- The loop that compares the records with those before.
unfoldable pub has_changed : List PluginInstall → List PluginInstall → Bool
has_changed (p ∷ ps) (q ∷ qs) = not (same_install p q) || has_changed ps qs
has_changed _ _ = false

-- `lock.Plugins[i]`; the index is in range where it is used.
unfoldable pub plugin_at : ℕ → List PluginInstall → PluginInstall → PluginInstall
plugin_at i [] other = other
plugin_at zero (p ∷ ps) other = p
plugin_at (suc i) (p ∷ ps) other = plugin_at i ps other

-- The records that UpdatePluginInstall makes.
unfoldable pub update_lock : UpdateOptions → PluginInstall → PluginLock → PluginLock
unfolding updated_install update_one apply_defaults
update_lock opts original lock = apply_defaults (record lock {
  plugins = map (update_one original (updated_install opts original)) lock.plugins;
})
