-- ===== src/Host/YamlDefaults/Twice.antt =====
-- Filling a mapping with the same defaults a second time changes nothing.
use anybot.Base.{
  ◌≡◌, refl, ap, ◌∙◌, inl, inr, none, some, arith, Option-cases, Text, eq_iff, eq_refl,
}
use anybot.Host.Yaml.{Node, Fields, mapping, no_fields, field, field_value, node_text}
use anybot.Host.Yaml.Reads.{clone_same, put_field-same, KeysDistinct, KeysOnce, FieldsOnce}
use anybot.Host.YamlDefaults.{merge_value, merge_fields}
use anybot.Host.YamlDefaults.Laws.{field_value-merge_fields, filled}

-- Each default is in the mapping already.
abbrev Settled : Fields → Fields → Type 0
Settled no_fields t = Unit
Settled (field key value rest) t =
    ((e : Node) × (field_value (node_text key) t ≡ some e) × ((merge_value value e).1 ≡ e))
    × Settled rest t

merge_fields-Settled : (ds t : Fields) → Settled ds t → (merge_fields ds t).1 ≡ t
unfolding merge_fields
merge_fields-Settled no_fields t h = refl
merge_fields-Settled (field key value rest) t ((e, f, g), h) =
    ground (arith, f, g, put_field-same key e t f, merge_fields-Settled rest t h)

-- A pair in front of the mapping hides none of the others.
Settled-field :
    (ds t : Fields) (k v : Node)
    → field_value (node_text k) ds ≡ none
    → Settled ds t
    → Settled ds (field k v t)
unfolding field_value
Settled-field no_fields t k v a h = tt
Settled-field (field key value rest) t k v a ((e, f, g), h) = (
  (
    e,
    ground
        (arith, a, f, eq_iff (node_text key) (node_text k), eq_iff (node_text k) (node_text key)),
    g,
  ),
  Settled-field rest t k v (ground (arith, a)) h,
)

mutual
  unfolding merge_value KeysOnce

  pub merge_self : (d : Node) → KeysOnce d → (merge_value d d).1 ≡ d
  merge_self (mapping tag defaults) (once, onces) =
      ap (mapping tag) (merge_fields-Settled defaults defaults (Settled-self defaults once onces))
  merge_self d once = ground (arith, clone_same d)

  Settled-self : (fs : Fields) → KeysDistinct fs → FieldsOnce fs → Settled fs fs
  Settled-self no_fields once onces = tt
  Settled-self (field k v rest) (d, ds) (h, hs) = (
    (v, ground (arith, eq_refl (node_text k)), merge_self v h),
    Settled-field rest rest k v d (Settled-self rest ds hs),
  )

mutual
  unfolding merge_value KeysOnce field_value

  pub merge_twice :
      (d e : Node) → KeysOnce d → (merge_value d (merge_value d e).1).1 ≡ (merge_value d e).1
  merge_twice (mapping tag defaults) (mapping own content) (once, onces) = ap (mapping own) (
      merge_fields-Settled defaults (merge_fields defaults content).1 (
        Settled-after defaults content (merge_fields defaults content).1 once onces (λ k v f.
          field_value-merge_fields k defaults content once
          ∙ ap (filled (field_value k content)) f)))
  merge_twice d e once = ground (arith, merge_self d once, clone_same d)

  -- `t` is what the merge of some defaults made of `content`; these are among them.
  Settled-after :
      (ds content t : Fields)
      → KeysDistinct ds
      → FieldsOnce ds
      → ((k : Text) (v : Node)
          → field_value k ds ≡ some v
          → field_value k t ≡ filled (field_value k content) (some v))
      → Settled ds t
  Settled-after no_fields content t once onces h = tt
  Settled-after (field k v rest) content t (d, ds) (o, os) h = (
    elim (Option-cases (field_value (node_text k) content)) [
      | inl f ↦ (v, ground (arith, f, h (node_text k) v, eq_refl (node_text k)), merge_self v o)
      | inr (e, f) ↦ (
        (merge_value v e).1,
        ground (arith, f, h (node_text k) v, eq_refl (node_text k)),
        merge_twice v e o,
      )
    ],
    Settled-after rest content t ds os
        (λ k' v' f. h k' v' (ground (arith, d, f, eq_iff (node_text k) k'))),
  )
