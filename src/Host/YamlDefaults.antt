-- ===== src/Host/YamlDefaults.antt =====
-- app/host/config_update.go, mergeMappingDefaults: filling a mapping with the defaults that it
-- lacks. The loop runs over the defaults' pairs and goes down where both sides are mappings, so it is
-- recursion on the tree of the defaults.
pub mod Laws
pub mod Twice
use anybot.Base.{
  ℕ, zero, suc, ◌+◌, ◌-◌, ◌≤◌, ◌<◌, ◌≡◌, refl, sym, ap, ◌∙◌, subst, ◌≢◌, ◌↔◌, ◌⊎◌, inl, inr, Bool,
  true, false, not, ◌&&◌, ◌||◌, Option, none, some, List, [], ◌∷◌, ◌++◌, map, arith, Bool-cases,
  Option-cases, Text, codes, if◌then◌else◌,
}
use anybot.Host.Yaml.{
  Node, Fields, mapping, no_fields, field, is_null, field_value, put_field, clone, node_text,
}

-- target.Content = append(target.Content, key, value)
abbrev pub append_field : Fields → Node → Node → Fields
append_field no_fields k v = field k v no_fields
append_field (field k' v' rest) k v = field k' v' (append_field rest k v)

-- The value of a key that is there: a mapping takes the defaults of a mapping, a null is replaced.
-- `merge_fields` fills the content of a mapping.
unfoldable mutual
  unfolding is_null clone field_value put_field

  pub merge_value : Node → Node → Bool × Node
  merge_value (mapping tag defaults) existing = elim existing [
    | mapping own content ↦
        let (changed, filled) = merge_fields defaults content in (changed, mapping own filled)
    | other ↦ if is_null other then (true, clone (mapping tag defaults)) else (false, other)
  ]
  merge_value value existing = if is_null existing then (true, clone value) else (false, existing)

  pub merge_fields : Fields → Fields → Bool × Fields
  merge_fields no_fields target = (false, target)
  merge_fields (field key value rest) target = elim (field_value (node_text key) target) [
    | none ↦ (true, (merge_fields rest (append_field target (clone key) (clone value))).1)
    | some existing ↦
        let (changed, filled) = merge_value value existing in
        let (more, target') = merge_fields rest (put_field key filled target) in
        (changed || more, target')
  ]

-- mergeMappingDefaults
unfoldable pub merge_mapping_defaults : Node → Node → Bool × Node
merge_mapping_defaults (mapping own content) (mapping _ defaults) =
    let (changed, filled) = merge_fields defaults content in (changed, mapping own filled)
merge_mapping_defaults target _ = (false, target)
