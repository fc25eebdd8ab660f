-- ===== src/Host/RegistryTests.antt =====
-- The registry of a lock at a concrete input.
use anybot.Base.{
  Bool-cases, subst, is_some, any, lookup, has_char, contains_any, arith, ◌≡◌, refl, inl, inr, true,
  ◌&&◌, some, [], ◌∷◌, arith, Text, codes,
}
use anybot.Base.{is_solid, has_char, ◌==◌}
use anybot.Host.PluginLock.{apply_defaults}
use anybot.Host.PluginLock.Checks.{validate_lock}
use anybot.Sdk.PluginId.{validate_plugin_id}
use anybot.Sdk.Registry.{Factory, Registry, factory_of}
use anybot.Host.LockRegistry.{registry_for_lock}
use anybot.Host.LockRegistry.Built.{gives, registry_for_lock-built}
use anybot.Host.Tests.{id_a, both_lock, test_rules}

-- Build functions that say which plugin they build, and a registry of external plugins.
abbrev builtin_factory : Text → Factory Text Text
builtin_factory source = record { info = source; plugin_id = []; build = some source }

abbrev roll_factory : Factory Text Text
roll_factory = record { info = codes "roll"; plugin_id = id_a; build = some (codes "roll") }

abbrev roll_registry : Registry Text Text
roll_registry = some ((id_a, roll_factory) ∷ [])

roll_built :
    (id : Text) (f : Factory Text Text)
    → factory_of id roll_registry ≡ some f
    → is_some f.build ≡ true
unfolding factory_of lookup
roll_built id f h = elim (Bool-cases (id == id_a)) [
  | inl e ↦
      let same : roll_factory ≡ f = ground (arith, h, e) in
      subst (λ g. is_some g.build ≡ true) same refl
  | inr e ↦ absurd (ground (arith, h, e))
]

registry_for_lock-built_example :
    (registry : Registry Text Text) × (registry_for_lock
        (λ _. [])
        builtin_factory
        roll_registry
        both_lock
      ≡ inr registry)
    × ((id : Text)
        → is_some (factory_of id registry)
          ≡ any
              (λ p. p.id == id && gives (λ _. []) builtin_factory roll_registry p)
              (apply_defaults both_lock).plugins)
unfolding validate_lock is_solid ◌==◌ validate_plugin_id contains_any has_char lookup
registry_for_lock-built_example =
    registry_for_lock-built (λ _. []) builtin_factory roll_registry (λ _. refl) roll_built
      test_rules both_lock refl
