-- ===== src/Host/ConfigEntry/Laws.antt =====
-- What a plugin's entry holds behind a switch and behind writes to its configuration.
use anybot.Base.{
  ◌≡◌, refl, sym, ap, ◌∙◌, ◌⊎◌, inl, inr, Bool, true, false, not, Option, none, some, List, [], ◌∷◌,
  arith, Bool-cases, Option-cases, Text, if◌then◌else◌, ◌==◌, Sum-cases, eq_iff, eq_refl, All,
  All-imp,
}
use anybot.Host.Yaml.{
  Node, mapping, scalar, bool_node, bool_value, bool_tag, scalar_node, field_value, is_mapping,
  is_null, mapping_value,
}
use anybot.Host.Yaml.Reads.{field_value-put_field}
use anybot.Host.YamlPaths.{Marshal, yaml_node_equal, set_mapping_path, opened}
use anybot.Host.YamlPaths.SetLaws.{
  value_at, diverges, set-value_at, set-value_at_apart, set_unchanged, opened_below,
}
use anybot.Host.ConfigEntry.{
  PluginConfigAssignment, enabled_key, config_key, ensure_plugin_entry_mapping, with_field, is_bool,
  set_plugin_entry_enabled, set_assignment, set_assignments, set_plugin_config_assignments,
  plugin_entry_disabled,
}

pub ensure-mapping_value :
    (entry m : Node) (k : Text)
    → ensure_plugin_entry_mapping entry ≡ inr m
    → mapping_value m k ≡ mapping_value entry k
unfolding ensure_plugin_entry_mapping mapping_value field_value is_null
ensure-mapping_value entry m k e = ground (arith, e)

pub ensure-is_mapping :
    (entry m : Node) → ensure_plugin_entry_mapping entry ≡ inr m → is_mapping m ≡ true
unfolding ensure_plugin_entry_mapping
ensure-is_mapping entry m e = ground (arith, e)

pub mapping_value-with_field :
    (key k : Text) (v m : Node)
    → is_mapping m ≡ true
    → mapping_value (with_field key v m) k ≡ (if key == k then some v else mapping_value m k)
unfolding with_field mapping_value
mapping_value-with_field key k v (mapping tag content) h =
    field_value-put_field (scalar key) k v content
mapping_value-with_field key k v m h = absurd (ground (arith, h))

pub set_plugin_entry_enabled_lem :
    (entry e' : Node) (id : Text) (b c : Bool)
    → set_plugin_entry_enabled entry id b ≡ inr (c, e')
    → (is_bool (mapping_value e' enabled_key) b ≡ true)
      × ((k : Text) → (enabled_key == k) ≡ false → mapping_value e' k ≡ mapping_value entry k)
unfolding set_plugin_entry_enabled
set_plugin_entry_enabled_lem entry e' id b c e =
    elim (Sum-cases (ensure_plugin_entry_mapping entry)) [
      | inl (_, h) ↦ absurd (ground (arith, e, h))
      | inr (m, h) ↦ elim (Bool-cases (is_bool (mapping_value m enabled_key) b)) [
        | inl t ↦ (
          ground (arith, e, h, t),
          λ k n. ground (arith, e, h, t, ensure-mapping_value entry m k h),
        )
        | inr t ↦ (
          ground (
            arith,
            e,
            h,
            t,
            eq_refl (bool_value b),
            eq_refl bool_tag,
            eq_refl enabled_key,
            mapping_value-with_field enabled_key enabled_key (bool_node b) m
                (ensure-is_mapping entry m h),
          ),
          λ k n. ground (
            arith,
            e,
            h,
            t,
            n,
            ensure-mapping_value entry m k h,
            mapping_value-with_field enabled_key k (bool_node b) m (ensure-is_mapping entry m h),
          ),
        )
      ]
    ]

-- An entry whose switch is written so reads so, where the decoder reads the two words of bool_value.
plugin_entry_disabled-is_bool :
    (decode_bool : Text → Option Bool) (entry : Node) (b : Bool)
    → ((x : Bool) → decode_bool (bool_value x) ≡ some x)
    → is_bool (mapping_value entry enabled_key) b ≡ true
    → plugin_entry_disabled decode_bool entry ≡ not b
unfolding plugin_entry_disabled
plugin_entry_disabled-is_bool decode_bool entry b d h =
    elim (Option-cases (mapping_value entry enabled_key)) [
      | inl f ↦ absurd (ground (arith, f, h))
      | inr (scalar_node tag text, f) ↦
          let t : text ≡ bool_value b = (eq_iff text (bool_value b)).0 (ground (arith, f, h)) in
          ground (arith, f, h, d b, t)
      | inr (_, f) ↦ absurd (ground (arith, f, h))
    ]

pub value_at-mapping_value :
    (k : Text) (q : List Text) (n : Node) (o : Option Node)
    → mapping_value n k ≡ o
    → value_at (k ∷ q) n ≡ elim o [ none ↦ none | some v ↦ value_at q v ]
value_at-mapping_value k q n o h = ground (arith, h)

-- The value that was put behind a key.
written :
    (entry m entry' v : Node) (key : Text)
    → ensure_plugin_entry_mapping entry ≡ inr m
    → entry' ≡ with_field key v m
    → (mapping_value entry' key ≡ some v)
      × ((k : Text) → (key == k) ≡ false → mapping_value entry' k ≡ mapping_value entry k)
written entry m entry' v key h same = (
  ground (
    arith,
    same,
    eq_refl key,
    mapping_value-with_field key key v m (ensure-is_mapping entry m h),
  ),
  λ k n. ground (
    arith,
    same,
    n,
    ensure-mapping_value entry m k h,
    mapping_value-with_field key k v m (ensure-is_mapping entry m h),
  ),
)

module _ (marshal : Marshal) where
  -- A path holds a value, or one that the encoder writes alike.
  abbrev pub Holds : List Text → Node → Node → Type 0
  Holds path value config =
      (w : Node) × (value_at path config ≡ some w)
      × ((w ≡ value) ⊎ (yaml_node_equal marshal w value ≡ true))

  set_assignment-Holds :
      (id : Text) (path : List Text) (value config config' : Node) (c : Bool)
      → set_assignment marshal id path value config ≡ inr (c, config')
      → Holds path value config'
        × ((q : List Text) → diverges path q ≡ true → value_at q config' ≡ value_at q config)
  unfolding set_assignment
  set_assignment-Holds id [] value config config' c e = absurd (ground (arith, e))
  set_assignment-Holds id (key ∷ path) value config config' true e =
      let done : set_mapping_path marshal key path value config ≡ inr (true, config') =
        ground (arith, e) in
      (
        (value, set-value_at marshal key path value config config' done, inl refl),
        λ q. set-value_at_apart marshal key path value config config' true q done,
      )
  set_assignment-Holds id (key ∷ path) value config config' false e =
      let done : set_mapping_path marshal key path value config ≡ inr (false, config') =
        ground (arith, e) in
      let (same, w, held, alike) = set_unchanged marshal key path value config config' done in
      (
        (w, ap (value_at (key ∷ path)) same ∙ held, inr alike),
        λ q. set-value_at_apart marshal key path value config config' false q done,
      )

  -- Every assignment's path parts from this one.
  abbrev pub Apart : List Text → List PluginConfigAssignment → Type 0
  Apart q changes = All (λ a. diverges a.path q ≡ true) changes

  -- No assignment is written over by a later one.
  abbrev pub AllApart : List PluginConfigAssignment → Type 0
  AllApart [] = Unit
  AllApart (a ∷ rest) = Apart a.path rest × AllApart rest

  set_assignments-Apart :
      (id : Text) (changes : List PluginConfigAssignment) (config config' : Node) (c : Bool)
      (q : List Text)
      → set_assignments marshal id changes config ≡ inr (c, config')
      → Apart q changes
      → value_at q config' ≡ value_at q config
  unfolding set_assignments
  set_assignments-Apart id [] config config' c q e h = ground (arith, e)
  set_assignments-Apart id (a ∷ rest) config config' c q e (d, ds) =
      elim (Sum-cases (set_assignment marshal id a.path a.value config)) [
        | inl (_, f) ↦ absurd (ground (arith, e, f))
        | inr ((b, mid), f) ↦ elim (Sum-cases (set_assignments marshal id rest mid)) [
          | inl (_, g) ↦ absurd (ground (arith, e, f, g))
          | inr ((b', last), g) ↦
              let same : config' ≡ last = ground (arith, e, f, g) in
              ap (value_at q) same
              ∙ set_assignments-Apart id rest mid last b' q g ds
              ∙ (set_assignment-Holds id a.path a.value config mid b f).1 q d
        ]
      ]

  set_assignments-Holds :
      (id : Text) (changes : List PluginConfigAssignment) (config config' : Node) (c : Bool)
      → set_assignments marshal id changes config ≡ inr (c, config')
      → AllApart changes
      → All (λ a. Holds a.path a.value config') changes
  unfolding set_assignments
  set_assignments-Holds id [] config config' c e h = tt
  set_assignments-Holds id (a ∷ rest) config config' c e (d, ds) =
      elim (Sum-cases (set_assignment marshal id a.path a.value config)) [
        | inl (_, f) ↦ absurd (ground (arith, e, f))
        | inr ((b, mid), f) ↦ elim (Sum-cases (set_assignments marshal id rest mid)) [
          | inl (_, g) ↦ absurd (ground (arith, e, f, g))
          | inr ((b', last), g) ↦
              let same : last ≡ config' = ground (arith, e, f, g) in
              let (w, held, alike) = (set_assignment-Holds id a.path a.value config mid b f).0 in
              (
                (
                  w,
                  ap (value_at a.path) (sym same)
                      ∙ set_assignments-Apart id rest mid last b' a.path g d
                      ∙ held,
                  alike,
                ),
                set_assignments-Holds id rest mid config' b' (g ∙ ap (λ n. inr (b', n)) same) ds,
              )
        ]
      ]

  set_config-inr :
      (id : Text) (entry entry' : Node) (changes : List PluginConfigAssignment) (c : Bool)
      → set_plugin_config_assignments marshal id entry changes ≡ inr (c, entry')
      → (m : Node) × (config' : Node) × (ensure_plugin_entry_mapping entry ≡ inr m)
        × (set_assignments marshal id changes (opened (mapping_value m config_key))
            ≡ inr (c, config'))
        × (entry' ≡ with_field config_key config' m)
  unfolding set_plugin_config_assignments
  set_config-inr id entry entry' changes c e =
      elim (Sum-cases (ensure_plugin_entry_mapping entry)) [
        | inl (_, h) ↦ absurd (ground (arith, e, h))
        | inr (m, h) ↦ elim (Bool-cases (is_mapping (opened (mapping_value m config_key)))) [
          | inr t ↦ absurd (ground (arith, e, h, t))
          | inl t ↦
              elim (Sum-cases
                (set_assignments marshal id changes (opened (mapping_value m config_key)))) [
                  | inl (_, f) ↦ absurd (ground (arith, e, h, t, f))
                  | inr ((b, config'), f) ↦
                      (m, config', h, f ∙ ground (arith, e, h, t, f), ground (arith, e, h, t, f))
                ]
        ]
      ]

  -- The entry after some assignments, from the entry before.
  abbrev pub Assigned : Node → Node → List PluginConfigAssignment → Type 0
  Assigned entry entry' changes =
      All (λ a. Holds (config_key ∷ a.path) a.value entry') changes
      × ((k : Text) (q : List Text)
          → Apart (k ∷ q) changes
          → value_at (config_key ∷ k ∷ q) entry' ≡ value_at (config_key ∷ k ∷ q) entry)
      × ((k : Text) → (config_key == k) ≡ false → mapping_value entry' k ≡ mapping_value entry k)

  -- Where assignments whose paths part from one another are written without an error, each path below
  -- `config` holds its value, or one that the encoder writes alike; a path below `config` that parts
  -- from all of them holds what it held, and so does every other key of the entry.
  pub set_plugin_config_assignments_lem :
      (id : Text) (entry entry' : Node) (changes : List PluginConfigAssignment) (c : Bool)
      → AllApart changes
      → set_plugin_config_assignments marshal id entry changes ≡ inr (c, entry')
      → Assigned entry entry' changes
  unfolding set_plugin_config_assignments
  set_plugin_config_assignments_lem id entry entry' changes c apart e =
      let (m, config', h, f, same) = set_config-inr id entry entry' changes c e in
      let (there, other) = written entry m entry' config' config_key h same in
      let held =
        set_assignments-Holds id changes (opened (mapping_value m config_key)) config' c f apart in
      let reads : (q : List Text) → value_at (config_key ∷ q) entry' ≡ value_at q config' =
        λ q. value_at-mapping_value config_key q entry' (some config') there in
      (
        All-imp (λ a (w, p, alike). (w, reads a.path ∙ p, alike)) changes held,
        λ k q d.
            reads (k ∷ q)
            ∙ set_assignments-Apart id changes (opened (mapping_value m config_key)) config' c
                (k ∷ q) f d
            ∙ opened_below k q (mapping_value m config_key)
            ∙ sym (
                value_at-mapping_value config_key (k ∷ q) entry (mapping_value m config_key)
                  (sym (ensure-mapping_value entry m config_key h))),
        other,
      )
