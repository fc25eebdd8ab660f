-- ===== src/Host/HostFiles/Render.antt =====
-- app/host/plugin_lock_io.go and plugin_host_render.go: the operations on the files of a plugin host.
use anybot.Base.{
  ℕ, suc, ◌⊎◌, inl, inr, Bool, false, Option, none, some, List, [], ◌∷◌, Text, if◌then◌else◌,
}
use anybot.Base.{is_some, is_empty}
use anybot.Host.PluginLock.{
  PluginInstall, PluginLock, LockError, apply_defaults, default_plugin_lock, outside, not_generated,
}
use anybot.Host.PluginLock.Checks.{validate_lock}
use anybot.Host.HostFiles.{
  HostFile, lock_file, plugins_file, main_file, module_file, file_name, Disk, put_text,
  PluginImport, Outside, is_generated, Step, and_then, checked,
}

module _ (io : Outside) where
  -- ValidatePluginLock: the defaults that it applies stand in the records that the caller holds.
  unfoldable pub validated : PluginLock → LockError ⊎ PluginLock
  unfolding validate_lock apply_defaults
  validated lock = elim (validate_lock io.rules lock) [
    | some e ↦ inl e
    | none ↦ inr (record lock { plugins = (apply_defaults lock).plugins })
  ]

  -- os.ReadFile: no text where the file does not exist.
  unfoldable pub read_file : HostFile → Disk → LockError ⊎ Option Text
  read_file f disk = elim (io.read_error f) [ some e ↦ inl (outside e) | none ↦ inr (disk f) ]

  -- LoadPluginLock
  unfoldable pub load_lock : Disk → LockError ⊎ PluginLock
  unfolding read_file validated apply_defaults
  load_lock disk = elim (read_file lock_file disk) [
    | inl e ↦ inl e
    | inr none ↦ inr default_plugin_lock
    | inr (some text) ↦ elim (io.decode text) [
      | inl e ↦ inl (outside e)
      | inr lock ↦ validated (apply_defaults lock)
    ]
  ]

  -- os.MkdirAll and writeFileAtomic
  unfoldable pub write_file : HostFile → Text → Step
  write_file f text disk = elim (io.write_error f) [
    | some e ↦ (some (outside e), disk)
    | none ↦ (none, put_text f text disk)
  ]

  -- SavePluginLock
  unfoldable pub save_lock : PluginLock → Step
  unfolding validated apply_defaults write_file
  save_lock lock disk = elim (validated (apply_defaults lock)) [
    | inl e ↦ (some e, disk)
    | inr lock' ↦ elim (io.encode lock') [
      | inl e ↦ (some (outside e), disk)
      | inr text ↦ write_file lock_file text disk
    ]
  ]

  -- checkGeneratedWritable and checkGeneratedGoModWritable
  unfoldable pub check_file : Bool → HostFile → Disk → Option LockError
  unfolding read_file is_generated
  check_file force f disk = if force then none else elim (read_file f disk) [
    | inl e ↦ some e
    | inr none ↦ none
    | inr (some text) ↦ if is_generated f text then none else some (not_generated (file_name f))
  ]

  -- CheckGeneratedHostWritable
  unfoldable pub check_writable : Bool → Disk → Option LockError
  unfolding check_file
  check_writable force disk = elim (check_file force plugins_file disk) [
    | some e ↦ some e
    | none ↦ elim (check_file force main_file disk) [
      | some e ↦ some e
      | none ↦ check_file force module_file disk
    ]
  ]

  -- writeGenerated
  unfoldable pub write_generated : Bool → HostFile → Text → Step
  unfolding check_file write_file
  write_generated force f text = and_then (checked (check_file force f)) (write_file f text)

  -- writeGeneratedGoModIfMissing behind its check.
  unfoldable pub write_missing : Text → Step
  unfolding write_file
  write_missing text disk = elim (io.stat_error module_file) [
    | some e ↦ (some (outside e), disk)
    | none ↦ if is_some (disk module_file) then (none, disk) else write_file module_file text disk
  ]

  -- writeGeneratedGoModIfMissing
  unfoldable pub write_go_mod_if_missing : Text → Step
  unfolding check_file write_missing
  write_go_mod_if_missing text =
      and_then (checked (check_file false module_file)) (write_missing text)

  -- The loop of renderPlugins, with the number of imports in front.
  unfoldable pub plugin_imports : ℕ → List PluginInstall → List PluginImport
  plugin_imports i [] = []
  plugin_imports i (item ∷ items) =
      if is_empty item.go_module
      then plugin_imports i items
      else record { alias = io.alias_of i; id = item.id; go_module = item.go_module }
        ∷ plugin_imports (suc i) items

  -- renderPlugins
  unfoldable pub render_plugins : PluginLock → Text
  unfolding plugin_imports
  render_plugins lock = io.plugins_template (plugin_imports 0 lock.plugins)

  -- renderGoMod
  unfoldable pub render_go_mod : PluginLock → Text
  unfolding apply_defaults
  render_go_mod lock = io.module_template (apply_defaults lock).go_module

  -- What renderPluginHost writes behind its checks.
  unfoldable pub write_host : Bool → PluginLock → Step
  unfolding write_generated write_go_mod_if_missing write_file render_plugins render_go_mod
  write_host force lock = and_then (write_generated force plugins_file (render_plugins lock)) (
      and_then (write_generated force main_file io.main_template) (
        if force
        then write_file module_file (render_go_mod lock)
        else write_go_mod_if_missing (render_go_mod lock)))

  -- renderPluginHost
  unfoldable pub render_plugin_host : Bool → PluginLock → Step
  unfolding validated apply_defaults check_writable write_host
  render_plugin_host force lock disk = elim (validated (apply_defaults lock)) [
    | inl e ↦ (some e, disk)
    | inr lock' ↦ elim io.mkdir_error [
      | some e ↦ (some (outside e), disk)
      | none ↦ and_then (checked (check_writable force)) (write_host force lock') disk
    ]
  ]
