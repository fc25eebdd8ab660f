-- ===== src/Host/ConfigEntry/Fills.antt =====
-- The two steps of a sync, each on one key of the entry: the switch and the configuration.
use anybot.Base.{
  ◌≡◌, refl, sym, ap, ◌∙◌, subst, ◌⊎◌, inl, inr, Bool, true, false, ◌&&◌, Option, none, some, arith,
  Bool-cases, Option-cases, Text, if◌then◌else◌, eq_refl, Sum-cases, ◌==◌,
}
use anybot.Host.Yaml.{
  Node, mapping, scalar, bool_node, field_value, is_mapping, is_null, mapping_value,
  empty_yaml_node, empty_node,
}
use anybot.Host.Yaml.Reads.{put_field-same, clone_same}
use anybot.Host.YamlPaths.{ConfigError}
use anybot.Host.YamlDefaults.{merge_value, merge_mapping_defaults}
use anybot.Host.YamlDefaults.Laws.{merge_value-unchanged}
use anybot.Host.ConfigEntry.{
  in_front, enabled_key, config_key, ensure_plugin_entry_mapping, with_field,
  fill_plugin_config_defaults, fill_missing_plugin_enabled,
}
use anybot.Host.ConfigEntry.Laws.{ensure-mapping_value, ensure-is_mapping, mapping_value-with_field}

-- What the switch and the configuration are after a sync.
abbrev pub filled_switch : Option Node → Node
filled_switch none = bool_node true
filled_switch (some v) = if is_null v then bool_node true else v

abbrev pub filled_config : Option Node → Node → Node
filled_config o defaults = elim o [
  | none ↦ defaults
  | some config ↦
      if empty_node config
      then defaults
      else if is_mapping config && is_mapping defaults
      then (merge_value defaults config).1
      else config
]

-- A step on an entry: it gives a mapping in which the key holds `v` and every other key what it held.
abbrev pub Fills : Text → Node → Node → Bool → Node → Type 0
Fills key entry v c entry' =
    (is_mapping entry' ≡ true)
    × (mapping_value entry' key ≡ some v)
    × ((k : Text) → (key == k) ≡ false → mapping_value entry' k ≡ mapping_value entry k)
    × (c ≡ false → entry' ≡ entry)

is_mapping-with_field :
    (key : Text) (v m : Node) → is_mapping m ≡ true → is_mapping (with_field key v m) ≡ true
unfolding with_field
is_mapping-with_field key v (mapping tag content) h = refl
is_mapping-with_field key v m h = h

with_field-same : (key : Text) (v m : Node) → mapping_value m key ≡ some v → with_field key v m ≡ m
unfolding with_field mapping_value
with_field-same key v (mapping tag content) h =
    ap (mapping tag) (put_field-same (scalar key) v content h)
with_field-same key v m h = absurd (ground (arith, h))

Fills-with_field :
    (key : Text) (entry m v : Node)
    → ensure_plugin_entry_mapping entry ≡ inr m
    → Fills key entry v true (with_field key v m)
Fills-with_field key entry m v h = (
  is_mapping-with_field key v m (ensure-is_mapping entry m h),
  ground (arith, eq_refl key, mapping_value-with_field key key v m (ensure-is_mapping entry m h)),
  λ k n. ground (
    arith,
    n,
    ensure-mapping_value entry m k h,
    mapping_value-with_field key k v m (ensure-is_mapping entry m h),
  ),
  λ e. absurd (ground (arith, e)),
)

-- An entry in which a key is found was a mapping.
pub ensure-same :
    (entry m v : Node) (k : Text)
    → ensure_plugin_entry_mapping entry ≡ inr m
    → mapping_value m k ≡ some v
    → m ≡ entry
unfolding ensure_plugin_entry_mapping mapping_value field_value
ensure-same entry m v k h f = ground (arith, h, f)

Fills-kept :
    (key : Text) (entry m v : Node)
    → ensure_plugin_entry_mapping entry ≡ inr m
    → mapping_value m key ≡ some v
    → Fills key entry v false m
Fills-kept key entry m v h f = (
  ensure-is_mapping entry m h,
  f,
  λ k n. ensure-mapping_value entry m k h,
  λ _. ensure-same entry m v key h f,
)

Fills-in_front :
    (key : Text) (entry m v : Node)
    → ensure_plugin_entry_mapping entry ≡ inr m
    → Fills key entry v true (in_front key v m)
unfolding mapping_value field_value
Fills-in_front key entry m v h = go m h (ensure-is_mapping entry m h)
  where
    go :
        (m : Node)
        → ensure_plugin_entry_mapping entry ≡ inr m
        → is_mapping m ≡ true
        → Fills key entry v true (in_front key v m)
    go (mapping tag content) h t = (
      refl,
      rw (eq_refl key) refl,
      λ k n. rw n (ensure-mapping_value entry (mapping tag content) k h),
      λ e. absurd (ground (arith, e)),
    )
    go m h t = absurd (ground (arith, t))

-- The step as its outcome names it.
Fills-outcome :
    (key : Text) (entry v v' e e' : Node) (c c' : Bool) (r : ConfigError ⊎ (Bool × Node))
    → v ≡ v'
    → r ≡ inr (c, e)
    → r ≡ inr (c', e')
    → Fills key entry v c e
    → Fills key entry v' c' e'
Fills-outcome key entry v v' e e' c c' r p q q' h =
    let same : (c, e) ≡ (c', e') = ground (arith, q, q') in
    subst (λ x. Fills key entry x c' e') p
      (subst (λ (x : Bool × Node). Fills key entry v x.0 x.1) same h)

pub fill_missing_lem :
    (entry e1 : Node) (c : Bool)
    → fill_missing_plugin_enabled entry ≡ inr (c, e1)
    → Fills enabled_key entry (filled_switch (mapping_value entry enabled_key)) c e1
unfolding fill_missing_plugin_enabled
fill_missing_lem entry e1 c e = elim (Sum-cases (ensure_plugin_entry_mapping entry)) [
  | inl (_, h) ↦ absurd (ground (arith, e, h))
  | inr (m, h) ↦
      let reads = ensure-mapping_value entry m enabled_key h in
      elim (Option-cases (mapping_value m enabled_key)) [
        | inl f ↦
            Fills-outcome enabled_key entry (bool_node true) _
              (in_front enabled_key (bool_node true) m) e1 true c
              (fill_missing_plugin_enabled entry) (ground (arith, reads, f)) (ground (arith, h, f))
              e (Fills-in_front enabled_key entry m (bool_node true) h)
        | inr (v, f) ↦ elim (Bool-cases (is_null v)) [
          | inl n ↦
              Fills-outcome enabled_key entry (bool_node true) _
                (with_field enabled_key (bool_node true) m) e1 true c
                (fill_missing_plugin_enabled entry) (ground (arith, reads, f, n))
                (ground (arith, h, f, n)) e
                (Fills-with_field enabled_key entry m (bool_node true) h)
          | inr n ↦
              Fills-outcome enabled_key entry v _ m e1 false c (fill_missing_plugin_enabled entry)
                (ground (arith, reads, f, n)) (ground (arith, h, f, n)) e
                (Fills-kept enabled_key entry m v h f)
        ]
      ]
]

merge_mapping_defaults-eq :
    (config defaults : Node)
    → (is_mapping config && is_mapping defaults) ≡ true
    → merge_mapping_defaults config defaults ≡ merge_value defaults config
unfolding merge_mapping_defaults merge_value
merge_mapping_defaults-eq (mapping own content) (mapping tag defaults) h = refl
merge_mapping_defaults-eq config defaults h = absurd (ground (arith, h))

Fills-merged :
    (entry m v defaults : Node)
    → ensure_plugin_entry_mapping entry ≡ inr m
    → mapping_value m config_key ≡ some v
    → Fills config_key entry
        (merge_value defaults v).1
        (merge_value defaults v).0
        (with_field config_key (merge_value defaults v).1 m)
Fills-merged entry m v defaults h f =
    let (a, b, c, _) = Fills-with_field config_key entry m (merge_value defaults v).1 h in
    (
      a,
      b,
      c,
      λ e.
          with_field-same config_key _ m (f ∙ ap some (sym (merge_value-unchanged defaults v e)))
          ∙ ensure-same entry m v config_key h f,
    )

pub fill_config_lem :
    (entry defaults e1 : Node) (c : Bool)
    → fill_plugin_config_defaults entry defaults ≡ inr (c, e1)
    → Fills config_key entry (filled_config (mapping_value entry config_key) defaults) c e1
unfolding fill_plugin_config_defaults empty_yaml_node
fill_config_lem entry defaults e1 c e = elim (Sum-cases (ensure_plugin_entry_mapping entry)) [
  | inl (_, h) ↦ absurd (ground (arith, e, h))
  | inr (m, h) ↦
      let reads = ensure-mapping_value entry m config_key h in
      elim (Option-cases (mapping_value m config_key)) [
        | inl f ↦
            Fills-outcome config_key entry defaults _ (with_field config_key defaults m) e1 true c
              (fill_plugin_config_defaults entry defaults) (ground (arith, reads, f))
              (ground (arith, h, f, clone_same defaults)) e
              (Fills-with_field config_key entry m defaults h)
        | inr (v, f) ↦ elim (Bool-cases (empty_node v)) [
          | inl n ↦
              Fills-outcome config_key entry defaults _ (with_field config_key defaults m) e1 true c
                (fill_plugin_config_defaults entry defaults) (ground (arith, reads, f, n))
                (ground (arith, h, f, n, clone_same defaults)) e
                (Fills-with_field config_key entry m defaults h)
          | inr n ↦ elim (Bool-cases (is_mapping v && is_mapping defaults)) [
            | inl t ↦
                Fills-outcome config_key entry (merge_value defaults v).1 _
                  (with_field config_key (merge_value defaults v).1 m) e1 (merge_value defaults v).0
                  c (fill_plugin_config_defaults entry defaults) (ground (arith, reads, f, n, t))
                  (ground (arith, h, f, n, t, merge_mapping_defaults-eq v defaults t)) e
                  (Fills-merged entry m v defaults h f)
            | inr t ↦
                Fills-outcome config_key entry v _ m e1 false c
                  (fill_plugin_config_defaults entry defaults) (ground (arith, reads, f, n, t))
                  (ground (arith, h, f, n, t)) e (Fills-kept config_key entry m v h f)
          ]
        ]
      ]
]
