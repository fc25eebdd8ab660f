-- ===== src/Host/LockRegistry.antt =====
-- app/host/builtins.go: the registry that a lock gives. The factories of the built-in plugins are an
-- argument, by their sources.
pub mod Built
use anybot.Base.{◌⊎◌, inl, inr, not, Option, none, some, List, [], ◌∷◌, Text, if◌then◌else◌}
use anybot.Base.{Dict, is_empty}
use anybot.Sdk.PluginId.{IdError}
use anybot.Sdk.Registry.{RegistryError, Factory, Registry, with_plugin_id, register_in, factory_of}
use anybot.Host.PluginLock.{PluginInstall, PluginLock, is_builtin, apply_defaults}

pub data LockRegistryError : Type 0 where
  unknown_source : Text → LockRegistryError
  not_registered : RegistryError → LockRegistryError

module _ {B M : Type 0} (failing : IdError → B) (builtin : Text → Factory B M)
    (external : Registry B M) where
  -- The factory that a record asks for: an error for an unknown source, none where it is skipped.
  unfoldable pub wanted_factory : PluginInstall → LockRegistryError ⊎ Option (Factory B M)
  unfolding is_builtin factory_of
  wanted_factory item =
      if not (is_empty item.builtin)
      then (if is_builtin item.builtin
          then inr (some (builtin item.builtin))
          else inl (unknown_source item.builtin))
      else if not (is_empty item.go_module)
      then inr (factory_of item.id external)
      else inr none

  -- The loop of RegistryForLock.
  unfoldable pub register_all :
      List PluginInstall → Dict (Factory B M) → LockRegistryError ⊎ Dict (Factory B M)
  unfolding wanted_factory with_plugin_id register_in
  register_all [] d = inr d
  register_all (item ∷ items) d = elim (wanted_factory item) [
    | inl e ↦ inl e
    | inr none ↦ register_all items d
    | inr (some f) ↦ elim (register_in (with_plugin_id failing item.id f) d) [
      | inl e ↦ inl (not_registered e)
      | inr d' ↦ register_all items d'
    ]
  ]

  -- RegistryForLock
  unfoldable pub registry_for_lock : PluginLock → LockRegistryError ⊎ Registry B M
  unfolding register_all apply_defaults
  registry_for_lock lock = elim (register_all (apply_defaults lock).plugins []) [
    | inl e ↦ inl e
    | inr d ↦ inr (some d)
  ]
