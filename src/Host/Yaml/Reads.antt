-- ===== src/Host/Yaml/Reads.antt =====
-- Reading a mapping behind a write and a removal, and a copy.
use anybot.Base.{
  ◌≡◌, refl, ap, none, some, arith, Text, if◌then◌else◌, ◌==◌, eq_iff, Bool-cases, inl, inr, subst,
}
use anybot.Host.Yaml.{
  Node, Nodes, Fields, no_node, document, sequence, mapping, scalar_node, alias, no_nodes, item,
  no_fields, field, node_text, field_value, put_field, remove_field,
}
unfoldable use anybot.Host.Yaml.{clone, clone_nodes, clone_fields}

mutual
  unfolding clone

  clone-eq : (n : Node) → clone n ≡ n
  clone-eq no_node = refl
  clone-eq (document content) = ap document (clone_nodes-eq content)
  clone-eq (sequence tag content) = ap (sequence tag) (clone_nodes-eq content)
  clone-eq (mapping tag content) = ap (mapping tag) (clone_fields-eq content)
  clone-eq (scalar_node tag value) = refl
  clone-eq (alias value target) = refl

  clone_nodes-eq : (ns : Nodes) → clone_nodes ns ≡ ns
  clone_nodes-eq no_nodes = refl
  clone_nodes-eq (item n rest) = rw (clone-eq n, clone_nodes-eq rest) refl

  clone_fields-eq : (fs : Fields) → clone_fields fs ≡ fs
  clone_fields-eq no_fields = refl
  clone_fields-eq (field k v rest) = rw (clone-eq k, clone-eq v, clone_fields-eq rest) refl

pub clone_same : (n : Node) → clone n ≡ n
clone_same n = clone-eq n

pub field_value-put_field :
    (key : Node) (other : Text) (new : Node) (fs : Fields)
    → field_value other (put_field key new fs)
      ≡ (if node_text key == other then some new else field_value other fs)
unfolding field_value put_field
field_value-put_field key other new no_fields = refl
field_value-put_field key other new (field k v rest) = ground (
  field_value-put_field key other new rest,
  eq_iff (node_text k) (node_text key),
  eq_iff (node_text k) other,
  eq_iff (node_text key) other,
  arith,
)

-- No two keys of a mapping are the same.
abbrev pub KeysDistinct : Fields → Type 0
KeysDistinct no_fields = Unit
KeysDistinct (field k v rest) = (field_value (node_text k) rest ≡ none) × KeysDistinct rest

pub field_value-remove_field :
    (key other : Text) (fs : Fields)
    → KeysDistinct fs
    → field_value other (remove_field key fs)
      ≡ (if key == other then none else field_value other fs)
unfolding field_value remove_field
field_value-remove_field key other no_fields d = ground arith
field_value-remove_field key other (field k v rest) (d, ds) = ground (
  field_value-remove_field key other rest ds,
  eq_iff (node_text k) key,
  eq_iff (node_text k) other,
  eq_iff key other,
  arith,
)

-- Writing back what a key holds changes nothing.
pub put_field-same :
    (key v : Node) (fs : Fields) → field_value (node_text key) fs ≡ some v → put_field key v fs ≡ fs
unfolding field_value put_field
put_field-same key v no_fields e = ground (arith, e)
put_field-same key v (field k w rest) e = elim (Bool-cases (node_text k == node_text key)) [
  | inl h ↦ ground (arith, h, e)
  | inr h ↦ ground (arith, h, e, put_field-same key v rest)
]

-- No mapping of the tree holds a key twice.
unfoldable mutual
  pub KeysOnce : Node → Type 0
  KeysOnce (mapping tag content) = KeysDistinct content × FieldsOnce content
  KeysOnce _ = Unit

  pub FieldsOnce : Fields → Type 0
  FieldsOnce no_fields = Unit
  FieldsOnce (field k v rest) = KeysOnce v × FieldsOnce rest

pub field_value-KeysOnce :
    (key : Text) (v : Node) (fs : Fields) → FieldsOnce fs → field_value key fs ≡ some v → KeysOnce v
unfolding field_value KeysOnce
field_value-KeysOnce key v no_fields h e = absurd (ground (arith, e))
field_value-KeysOnce key v (field k w rest) (h, hs) e = elim (Bool-cases (node_text k == key)) [
  | inl t ↦ subst KeysOnce (ground (arith, t, e)) h
  | inr t ↦ field_value-KeysOnce key v rest hs (ground (arith, t, e))
]
