-- ===== src/Host/ConfigEntry/Sync.antt =====
-- What syncing a plugin's entry with its default configuration keeps and fills.
use anybot.Base.{
  ◌≡◌, refl, sym, ap, ◌∙◌, subst, inl, inr, Bool, true, false, ◌&&◌, ◌||◌, Option, none, some, List,
  [], ◌∷◌, arith, Bool-cases, Option-cases, Text, Sum-cases, ◌==◌, eq_iff,
}
use anybot.Host.Yaml.{Node, mapping, is_mapping, is_null, mapping_value, empty_node}
use anybot.Host.Yaml.Reads.{KeysOnce}
use anybot.Host.YamlPaths.SetLaws.{value_at}
use anybot.Host.YamlDefaults.{merge_value}
use anybot.Host.YamlDefaults.Laws.{is_own, merge_value-kept, has_no_fields-merge_fields}
use anybot.Host.YamlDefaults.Twice.{merge_self, merge_twice}
use anybot.Host.ConfigEntry.{
  AsYaml, enabled_key, config_key, default_config_node, fill_plugin_config_defaults,
  fill_missing_plugin_enabled, sync_plugin_config_node,
}
use anybot.Host.YamlPaths.RemoveLaws.{value_at_empty}
use anybot.Host.ConfigEntry.Laws.{value_at-mapping_value}
use anybot.Host.ConfigEntry.Fills.{filled_switch, filled_config, fill_missing_lem, fill_config_lem}

-- What a sync that reports no error makes of an entry.
abbrev pub Synced : Node → Node → Bool → Node → Type 0
Synced defaults entry c e' =
    (mapping_value e' enabled_key ≡ some (filled_switch (mapping_value entry enabled_key)))
    × (mapping_value e' config_key ≡ some (filled_config (mapping_value entry config_key) defaults))
    × ((k : Text)
        → (enabled_key == k) ≡ false
        → (config_key == k) ≡ false
        → mapping_value e' k ≡ mapping_value entry k)
    × (c ≡ false → e' ≡ entry)

sync_plugin_config_node_lem :
    (id : Text) (entry e' : Node) (c : Bool) (default : AsYaml)
    → sync_plugin_config_node id entry default ≡ inr (c, e')
    → (defaults : Node) × (default_config_node default ≡ inr defaults) × Synced defaults entry c e'
unfolding sync_plugin_config_node ◌==◌
sync_plugin_config_node_lem id entry e' c default e =
    elim (Sum-cases (default_config_node default)) [
      | inl (_, d) ↦ absurd (ground (arith, e, d))
      | inr (defaults, d) ↦ elim (Sum-cases (fill_missing_plugin_enabled entry)) [
        | inl (_, f) ↦ absurd (ground (arith, e, d, f))
        | inr ((b, e1), f) ↦ elim (Sum-cases (fill_plugin_config_defaults e1 defaults)) [
          | inl (_, g) ↦ absurd (ground (arith, e, d, f, g))
          | inr ((b', e2), g) ↦
              let (_, on, others, same) = fill_missing_lem entry e1 b f in
              let (_, config, others', same') = fill_config_lem e1 defaults e2 b' g in
              let done : Synced defaults entry (b || b') e2 = (
                others' enabled_key refl ∙ on,
                config ∙ ap (λ o. some (filled_config o defaults)) (others config_key refl),
                λ k n n'. others' k n' ∙ others k n,
                λ h. same' (ground (arith, h)) ∙ same (ground (arith, h)),
              ) in
              let out : (b || b', e2) ≡ (c, e') = ground (arith, e, d, f, g) in
              (defaults, d, subst (λ (x : Bool × Node). Synced defaults entry x.0 x.1) out done)
        ]
      ]
    ]

own_not_empty :
    (q : List Text) (config v : Node)
    → value_at q config ≡ some v
    → is_own v ≡ true
    → empty_node config ≡ false
unfolding empty_node is_null
own_not_empty [] config v h own = ground (arith, h, own)
own_not_empty (k ∷ q) config v h own = ground (arith, h, value_at_empty k q config)

filled_config-kept :
    (q : List Text) (config defaults v : Node)
    → KeysOnce defaults
    → value_at q config ≡ some v
    → is_own v ≡ true
    → value_at q (filled_config (some config) defaults) ≡ some v
filled_config-kept q config defaults v once h own =
    ground
      (arith, h, own_not_empty q config v h own, merge_value-kept q defaults config v once h own)

-- Where a plugin's default configuration holds each key once, a sync that reports no error keeps every
-- value that the user wrote below `config`, other than a null and a mapping.
pub sync_plugin_config_node-kept :
    (id : Text) (entry e' defaults v : Node) (c : Bool) (default : AsYaml) (q : List Text)
    → default_config_node default ≡ inr defaults
    → KeysOnce defaults
    → sync_plugin_config_node id entry default ≡ inr (c, e')
    → value_at (config_key ∷ q) entry ≡ some v
    → is_own v ≡ true
    → value_at (config_key ∷ q) e' ≡ some v
sync_plugin_config_node-kept id entry e' defaults v c default q d once e h own =
    let (defaults', d', (_, config, _, _)) = sync_plugin_config_node_lem id entry e' c default e in
    let one : defaults' ≡ defaults = ground (arith, d, d') in
    elim (Option-cases (mapping_value entry config_key)) [
      | inl f ↦ absurd (ground (arith, h, value_at-mapping_value config_key q entry none f))
      | inr (own_config, f) ↦
          let held = sym (value_at-mapping_value config_key q entry (some own_config) f) ∙ h in
          value_at-mapping_value config_key q e' _ config
          ∙ rw (f, one) (filled_config-kept q own_config defaults v once held own)
    ]

filled_switch-twice : (o : Option Node) → filled_switch (some (filled_switch o)) ≡ filled_switch o
unfolding is_null ◌==◌
filled_switch-twice none = refl
filled_switch-twice (some v) = elim (Bool-cases (is_null v)) [
  | inl h ↦ ground (arith, h)
  | inr h ↦ ground (arith, h)
]

-- A configuration that holds something still does when it is filled.
merge_value-not_empty :
    (defaults config : Node)
    → (is_mapping config && is_mapping defaults) ≡ true
    → empty_node config ≡ false
    → (empty_node (merge_value defaults config).1 ≡ false)
      × (is_mapping (merge_value defaults config).1 ≡ true)
unfolding merge_value empty_node
merge_value-not_empty (mapping tag defaults) (mapping own content) t h =
    (has_no_fields-merge_fields defaults content h, refl)
merge_value-not_empty defaults config t h = absurd (ground (arith, t))

filled_config-defaults :
    (defaults : Node) → KeysOnce defaults → filled_config (some defaults) defaults ≡ defaults
filled_config-defaults defaults once = ground (arith, merge_self defaults once)

filled_config-twice :
    (o : Option Node) (defaults : Node)
    → KeysOnce defaults
    → filled_config (some (filled_config o defaults)) defaults ≡ filled_config o defaults
filled_config-twice none defaults once = filled_config-defaults defaults once
filled_config-twice (some config) defaults once = elim (Bool-cases (empty_node config)) [
  | inl h ↦ rw h (filled_config-defaults defaults once)
  | inr h ↦ elim (Bool-cases (is_mapping config && is_mapping defaults)) [
    | inl t ↦
        let (a, b) = merge_value-not_empty defaults config t h in
        ground (arith, h, t, a, b, merge_twice defaults config once)
    | inr t ↦ ground (arith, h, t)
  ]
]

-- Where a plugin's default configuration holds each key once, a second sync with it leaves behind every
-- key of the entry what the first left there.
pub sync_plugin_config_node-twice :
    (id : Text) (entry e' e'' defaults : Node) (c c' : Bool) (default : AsYaml)
    → default_config_node default ≡ inr defaults
    → KeysOnce defaults
    → sync_plugin_config_node id entry default ≡ inr (c, e')
    → sync_plugin_config_node id e' default ≡ inr (c', e'')
    → (k : Text) → mapping_value e'' k ≡ mapping_value e' k
sync_plugin_config_node-twice id entry e' e'' defaults c c' default d once e f k =
    let (d1, p1, (on, config, other, _)) = sync_plugin_config_node_lem id entry e' c default e in
    let (d2, p2, (on', config', other', _)) = sync_plugin_config_node_lem id e' e'' c' default f in
    let one : d1 ≡ defaults = ground (arith, d, p1) in
    let two : d2 ≡ defaults = ground (arith, d, p2) in
    let switch =
      on' ∙ ap (λ o. some (filled_switch o)) on ∙ ap some (filled_switch-twice _) ∙ sym on in
    let values =
      config'
      ∙ ap (λ o. some (filled_config o d2)) config
      ∙ ap (λ n. some (filled_config (some (filled_config (mapping_value entry config_key) n)) d2))
          (one ∙ sym two)
      ∙ ap some (filled_config-twice _ d2 (subst KeysOnce (sym two) once))
      ∙ ap (λ n. some (filled_config (mapping_value entry config_key) n)) (two ∙ sym one)
      ∙ sym config in
    elim (Bool-cases (enabled_key == k)) [
      | inl h ↦
          subst (λ x. mapping_value e'' x ≡ mapping_value e' x) ((eq_iff enabled_key k).0 h) switch
      | inr n ↦ elim (Bool-cases (config_key == k)) [
        | inl h ↦
            subst (λ x. mapping_value e'' x ≡ mapping_value e' x) ((eq_iff config_key k).0 h) values
        | inr n' ↦ other' k n n'
      ]
    ]
