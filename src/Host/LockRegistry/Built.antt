-- ===== src/Host/LockRegistry/Built.antt =====
-- app/host/builtins.go: every valid lock gives a registry.
use anybot.Base.{
  ◌≡◌, refl, sym, subst, ◌⊎◌, inl, inr, Bool, true, false, not, ◌&&◌, ◌||◌, none, some, List, [],
  ◌∷◌, arith, Option-cases, Text,
}
use anybot.Base.{Dict, lookup, insert, lookup-insert, is_empty, is_some, all, any, ◌==◌, eq_iff}
use anybot.Sdk.PluginId.{IdError, validate_plugin_id}
use anybot.Sdk.Sessions.Apart.{valid_facts}
use anybot.Sdk.Registry.{Factory, Registry, with_plugin_id, register_in, factory_of}
use anybot.Host.PluginLock.{PluginInstall, PluginLock, ModuleRules, apply_defaults}
use anybot.Host.PluginLock.Checks.{validate_install, validate_lock}
use anybot.Host.PluginLock.Valid.{fits, IsGood}
use anybot.Host.PluginLock.Loop.{validate_lock-decides}
use anybot.Host.PluginLock.Defaults.{valid_source}
use anybot.Host.LockRegistry.{wanted_factory, register_all, registry_for_lock}

valid_id :
    (rules : ModuleRules) (p : PluginInstall)
    → validate_install rules p ≡ none
    → validate_plugin_id p.id ≡ none
unfolding validate_install
valid_id rules p h = elim (Option-cases (validate_plugin_id p.id)) [
  | inl e ↦ e
  | inr (x, e) ↦ absurd (ground (arith, h, e))
]

-- The ids of the other records stay free.
still_free :
    {A : Type 0} (p : PluginInstall) (f : A) (d : Dict A) (items : List PluginInstall)
    → all (fits p) items ≡ true
    → all (λ q. not (is_some (lookup q.id d))) items ≡ true
    → all (λ q. not (is_some (lookup q.id (insert p.id f d)))) items ≡ true
still_free p f d [] h k = refl
still_free p f d (q ∷ items) h k = ground (
  arith,
  h,
  k,
  lookup-insert p.id q.id f d,
  eq_iff q.id p.id,
  eq_iff p.id q.id,
  still_free p f d items,
)

none_yet :
    (A : Type 0) (items : List PluginInstall)
    → all (λ p. not (is_some (lookup {V = A} p.id []))) items ≡ true
unfolding lookup
none_yet A [] = refl
none_yet A (p ∷ items) = none_yet A items

module _ {B M : Type 0} (failing : IdError → B) (builtin : Text → Factory B M)
    (external : Registry B M) where
  -- Whether a valid record gives a plugin: a built-in one, or one that was built in.
  abbrev pub gives : PluginInstall → Bool
  gives p = not (is_empty p.builtin) || is_some (factory_of p.id external)

  registered :
      (id : Text) (f : Factory B M) (d : Dict (Factory B M))
      → validate_plugin_id id ≡ none
      → is_some f.build ≡ true
      → is_some (lookup id d) ≡ false
      → register_in (with_plugin_id failing id f) d
        ≡ inr (insert id (record f { plugin_id = id }) d)
  unfolding register_in with_plugin_id
  registered id f d v b n =
      let (e, t, l) = valid_facts id v in
      let same : with_plugin_id failing id f ≡ record f { plugin_id = id } =
        rw (e, with_plugin_id, t, v) refl in
      subst (λ g. register_in g d ≡ inr (insert id (record f { plugin_id = id }) d)) (sym same)
        (rw (e, register_in, v, b, n) refl)

  module _ (builds : (source : Text) → is_some (builtin source).build ≡ true)
      (built : (id : Text) (f : Factory B M)
        → factory_of id external ≡ some f
        → is_some f.build ≡ true) where
    wanted :
        (rules : ModuleRules) (p : PluginInstall)
        → validate_install rules p ≡ none
        → ((wanted_factory failing builtin external p ≡ inr none) × (gives p ≡ false))
          ⊎ ((f : Factory B M) × (wanted_factory failing builtin external p ≡ inr (some f))
              × (gives p ≡ true)
              × (is_some f.build ≡ true))
    unfolding wanted_factory
    wanted rules p v = elim (valid_source rules p v) [
      | inr (m, b, n) ↦
          inr (builtin p.builtin, ground (arith, n, b), ground (arith, n), builds p.builtin)
      | inl (b, m, c) ↦ elim (Option-cases (factory_of p.id external)) [
        | inl e ↦ inl (ground (arith, b, m, e), ground (arith, b, e))
        | inr (f, e) ↦ inr (f, ground (arith, b, m, e), ground (arith, b, e), built p.id f e)
      ]
    ]

    all_registered :
        (rules : ModuleRules) (items : List PluginInstall) (d : Dict (Factory B M))
        → IsGood rules items
        → all (λ p. not (is_some (lookup p.id d))) items ≡ true
        → (d' : Dict (Factory B M)) × (register_all failing builtin external items d ≡ inr d')
          × ((id : Text)
              → is_some (lookup id d')
                ≡ (is_some (lookup id d) || any (λ p. p.id == id && gives p) items))
    unfolding register_all
    all_registered rules [] d g free = (d, refl, λ id. ground arith)
    all_registered rules (p ∷ items) d (v, fit, g) free = elim (wanted rules p v) [
      | inl (w, n) ↦
          let (d', r, k) = all_registered rules items d g (ground (arith, free)) in
          (d', rw (w, register_all) r, λ id. ground (arith, k id, n))
      | inr (f, w, y, b) ↦
          let own = record f { plugin_id = p.id } in
          let fresh : is_some (lookup p.id d) ≡ false = ground (arith, free) in
          let (d', r, k) =
            all_registered rules items (insert p.id own d) g
              (still_free p own d items fit (ground (arith, free))) in
          (
            d',
            rw (w, register_all, registered p.id f d (valid_id rules p v) b fresh) r,
            λ id.
                ground
                  (arith, k id, y, lookup-insert p.id id own d, eq_iff p.id id, eq_iff id p.id),
          )
    ]

    -- RegistryForLock succeeds on every lock that ValidatePluginLock accepts, and registers exactly the
    -- ids of the built-in records and of those whose plugin is among the external ones: where all these
    -- factories have a build function.
    pub registry_for_lock-built :
        (rules : ModuleRules) (lock : PluginLock)
        → validate_lock rules lock ≡ none
        → (registry : Registry B M) × (registry_for_lock failing builtin external lock
            ≡ inr registry)
          × ((id : Text)
              → is_some (factory_of id registry)
                ≡ any (λ p. p.id == id && gives p) (apply_defaults lock).plugins)
    unfolding registry_for_lock factory_of lookup
    registry_for_lock-built rules lock v =
        let items = (apply_defaults lock).plugins in
        let (d', r, k) =
          all_registered rules items [] ((validate_lock-decides rules lock).0 v)
            (none_yet (Factory B M) items) in
        (some d', rw (r, registry_for_lock) refl, k)
