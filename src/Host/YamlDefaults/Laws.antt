-- ===== src/Host/YamlDefaults/Laws.antt =====
-- What a mapping holds behind mergeMappingDefaults.
use anybot.Base.{
  ◌≡◌, refl, ap, inl, inr, Bool, true, false, not, ◌&&◌, Option, none, some, List, [], ◌∷◌, arith,
  Option-cases, Text, if◌then◌else◌, eq_iff, ◌==◌,
}
use anybot.Host.Yaml.{
  has_no_fields, no_node, Node, Fields, mapping, no_fields, field, is_null, is_mapping, field_value,
  put_field, node_text, mapping_value, clone,
}
use anybot.Host.Yaml.Reads.{
  clone_same, field_value-put_field, put_field-same, KeysDistinct, KeysOnce, field_value-KeysOnce,
}
use anybot.Host.YamlDefaults.{append_field, merge_value, merge_fields}
use anybot.Host.YamlPaths.SetLaws.{value_at}

field_value-append_field :
    (key v : Node) (k : Text) (fs : Fields)
    → field_value k (append_field fs key v) ≡ elim (field_value k fs) [
      | some w ↦ some w
      | none ↦ if node_text key == k then some v else none
    ]
unfolding field_value
field_value-append_field key v k no_fields = refl
field_value-append_field key v k (field k' v' rest) =
    ground (arith, field_value-append_field key v k rest)

-- What a key holds behind the merge, from what it held and what its default is.
abbrev pub filled : Option Node → Option Node → Option Node
filled none default = default
filled (some own) none = some own
filled (some own) (some default) = some (merge_value default own).1

-- Filling a mapping with defaults that hold each key once works key by key: a key that the mapping
-- lacks takes its default, a key without a default stays, and a key with both holds its value, filled
-- with the default.
pub field_value-merge_fields :
    (k : Text) (defaults target : Fields)
    → KeysDistinct defaults
    → field_value k (merge_fields defaults target).1
      ≡ filled (field_value k target) (field_value k defaults)
unfolding merge_fields field_value
field_value-merge_fields k no_fields target d = ground arith
field_value-merge_fields k (field key value rest) target (d, ds) =
    elim (Option-cases (field_value (node_text key) target)) [
      | inl h ↦ ground (
        arith,
        h,
        d,
        clone_same key,
        clone_same value,
        field_value-merge_fields k rest (append_field target key value) ds,
        field_value-append_field key value k target,
        eq_iff (node_text key) k,
      )
      | inr (e, h) ↦ ground (
        arith,
        h,
        d,
        field_value-merge_fields k rest (put_field key (merge_value value e).1 target) ds,
        field_value-put_field key k (merge_value value e).1 target,
        eq_iff (node_text key) k,
      )
    ]

mutual
  unfolding merge_value

  pub merge_value-unchanged : (d e : Node) → (merge_value d e).0 ≡ false → (merge_value d e).1 ≡ e
  merge_value-unchanged (mapping tag defaults) (mapping own content) h =
      ap (mapping own) (merge_fields-unchanged defaults content h)
  merge_value-unchanged d e h = ground (arith, h)

  merge_fields-unchanged :
      (ds t : Fields) → (merge_fields ds t).0 ≡ false → (merge_fields ds t).1 ≡ t
  merge_fields-unchanged no_fields t h = refl
  merge_fields-unchanged (field key value rest) t h =
      elim (Option-cases (field_value (node_text key) t)) [
        | inl f ↦ absurd (ground (arith, h, f))
        | inr (e, f) ↦ ground (
          arith,
          h,
          f,
          merge_value-unchanged value e,
          put_field-same key e t,
          merge_fields-unchanged rest (put_field key (merge_value value e).1 t),
        )
      ]

-- A value that was written: there, and neither a mapping, which is filled, nor null, which stands for none.
abbrev pub is_own : Node → Bool
is_own no_node = false
is_own v = not (is_mapping v) && not (is_null v)

merge_value-own : (d e : Node) → is_own e ≡ true → (merge_value d e).1 ≡ e
unfolding merge_value is_null
merge_value-own d e h = ground (arith, h)

value_at_not_null :
    (k : Text) (q : List Text) (e v : Node) → value_at (k ∷ q) e ≡ some v → is_null e ≡ false
unfolding mapping_value is_null
value_at_not_null k q (mapping tag content) v h = refl
value_at_not_null k q e v h = ground (arith, h)

pub merge_value-kept :
    (q : List Text) (d e v : Node)
    → KeysOnce d
    → value_at q e ≡ some v
    → is_own v ≡ true
    → value_at q (merge_value d e).1 ≡ some v
unfolding merge_value mapping_value is_null KeysOnce
merge_value-kept [] d e v once h own = ground (arith, h, own, merge_value-own d e)
merge_value-kept (k ∷ q) (mapping tag defaults) (mapping own content) v (once, onces) h o =
    elim (Option-cases (field_value k content)) [
      | inl f ↦ absurd (ground (arith, f, h))
      | inr (w, f) ↦ elim (Option-cases (field_value k defaults)) [
        | inl g ↦ ground (arith, f, g, h, field_value-merge_fields k defaults content once)
        | inr (d, g) ↦
            let ih = merge_value-kept q d w v (field_value-KeysOnce k d defaults onces g) in
            ground (arith, f, g, h, o, ih, field_value-merge_fields k defaults content once)
      ]
    ]
merge_value-kept (k ∷ q) d e v once h o = ground (arith, h, value_at_not_null k q e v h)

-- A mapping that holds something still does.
pub has_no_fields-merge_fields :
    (ds t : Fields) → has_no_fields t ≡ false → has_no_fields (merge_fields ds t).1 ≡ false
unfolding merge_fields put_field
has_no_fields-merge_fields no_fields t h = h
has_no_fields-merge_fields (field key value rest) no_fields h = absurd (ground (arith, h))
has_no_fields-merge_fields (field key value rest) (field k v t) h =
    elim (Option-cases (field_value (node_text key) (field k v t))) [
      | inl f ↦ ground (
        arith,
        f,
        has_no_fields-merge_fields rest (append_field (field k v t) (clone key) (clone value)),
      )
      | inr (e, f) ↦ ground (
        arith,
        f,
        has_no_fields-merge_fields rest (put_field key (merge_value value e).1 (field k v t)),
      )
    ]
