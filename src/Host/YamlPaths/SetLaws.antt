-- ===== src/Host/YamlPaths/SetLaws.antt =====
-- What setMappingPath does to the value behind each path.
use anybot.Base.{
  ◌≡◌, refl, sym, ap, ◌∙◌, subst, ◌⊎◌, inl, inr, Bool, true, false, ◌&&◌, ◌||◌, Option, none, some,
  List, [], ◌∷◌, arith, Bool-cases, Option-cases, Text, if◌then◌else◌, ◌==◌, eq_refl, eq_iff,
}
use anybot.Host.Yaml.{
  Node, Fields, mapping, no_fields, scalar, empty_config_node, is_mapping, empty_node,
  empty_yaml_node, field_value, put_field, mapping_value,
}
use anybot.Host.Yaml.{empty_node, is_mapping}
use anybot.Host.Yaml.Reads.{clone_same, put_field-same, field_value-put_field}
use anybot.Host.YamlPaths.{
  ConfigError, Marshal, opened, yaml_node_equal, not_mapping, set_mapping_path, set_child,
}

-- The value behind a path of keys.
abbrev pub value_at : List Text → Node → Option Node
value_at [] n = some n
value_at (k ∷ path) n = elim (mapping_value n k) [ none ↦ none | some v ↦ value_at path v ]

-- The paths part: neither is a beginning of the other.
unfoldable pub diverges : List Text → List Text → Bool
diverges (a ∷ p) (b ∷ q) = let rest = diverges p q in if a == b then rest else true
diverges _ _ = false

value_at-opened :
    (k : Text) (q : List Text) (n : Node) → value_at (k ∷ q) (opened (some n)) ≡ value_at (k ∷ q) n
unfolding opened empty_yaml_node empty_node mapping_value field_value
value_at-opened k q (mapping tag no_fields) = refl
value_at-opened k q n = ground arith

-- Opening a value does not change what lies below it.
pub opened_below :
    (k : Text) (q : List Text) (o : Option Node)
    → value_at (k ∷ q) (opened o) ≡ elim o [ none ↦ none | some v ↦ value_at (k ∷ q) v ]
unfolding opened mapping_value field_value
opened_below k q none = refl
opened_below k q (some v) = value_at-opened k q v

opened-apart :
    (p q : List Text) (o : Option Node)
    → diverges p q ≡ true
    → value_at q (opened o) ≡ elim o [ none ↦ none | some v ↦ value_at q v ]
unfolding diverges opened mapping_value field_value
opened-apart [] [] o d = ground (arith, d)
opened-apart (_ ∷ _) [] o d = ground (arith, d)
opened-apart p (k ∷ q) o d = opened_below k q o

value_at-step :
    (k : Text) (q : List Text) (tag : Text) (fs : Fields)
    → value_at (k ∷ q) (mapping tag fs)
      ≡ elim (field_value k fs) [ none ↦ none | some v ↦ value_at q v ]
unfolding mapping_value
value_at-step k q tag fs = refl

pub value_at-there :
    (k : Text) (q : List Text) (tag : Text) (fs : Fields) (v : Node)
    → field_value k fs ≡ some v
    → value_at (k ∷ q) (mapping tag fs) ≡ value_at q v
unfolding mapping_value
value_at-there k q tag fs v h = ground (arith, h)

pub value_at-put_field :
    (key : Text) (q : List Text) (tag : Text) (v : Node) (fs : Fields)
    → value_at (key ∷ q) (mapping tag (put_field (scalar key) v fs)) ≡ value_at q v
unfolding mapping_value
value_at-put_field key q tag v fs =
    ground (field_value-put_field (scalar key) key v fs, eq_refl key, arith)

pub value_at-put_field_ne :
    (key other : Text) (q : List Text) (tag : Text) (v : Node) (fs : Fields)
    → (key == other) ≡ false
    → value_at (other ∷ q) (mapping tag (put_field (scalar key) v fs))
      ≡ value_at (other ∷ q) (mapping tag fs)
unfolding mapping_value
value_at-put_field_ne key other q tag v fs h =
    ground (field_value-put_field (scalar key) other v fs, h, arith)

set_child-inr :
    (key tag : Text) (content : Fields) (r : ConfigError ⊎ (Bool × Node)) (c : Bool) (n' : Node)
    → set_child key tag content r ≡ inr (c, n')
    → (child : Node) × (r ≡ inr (c, child))
      × (n' ≡ mapping tag (put_field (scalar key) child content))
set_child-inr key tag content (inl e) c n' h = ground arith
set_child-inr key tag content (inr (c', child)) c n' h =
    (child, ground (arith, h), ground (arith, h))

-- Only a value that is there is left open.
opened-held :
    (k : Text) (q : List Text) (o : Option Node) (w : Node)
    → value_at (k ∷ q) (opened o) ≡ some w
    → o ≡ some (opened o)
unfolding opened empty_yaml_node mapping_value field_value
opened-held k q none w e = ground (arith, e)
opened-held k q (some v) w e = elim (Bool-cases (empty_node v)) [
  | inl h ↦ ground (arith, e, h)
  | inr h ↦ rw h refl
]

-- The independent test of whether a value can be written behind a path: what it goes through is
-- absent, empty or a mapping.
unfoldable pub goes_through : Text → List Text → Node → Bool
goes_through key [] n = is_mapping n
goes_through key (next ∷ path) n = is_mapping n && (elim (mapping_value n key) [
  | none ↦ true
  | some v ↦ empty_node v || goes_through next path v
])

goes_through-empty :
    (key : Text) (path : List Text) → goes_through key path empty_config_node ≡ true
unfolding goes_through mapping_value field_value
goes_through-empty key [] = refl
goes_through-empty key (next ∷ path) = refl

abbrev pub succeeds {ℓ κ} : {A : Type ℓ} {B : Type κ} → A ⊎ B → Bool
succeeds (inl _) = false
succeeds (inr _) = true

succeeds-set_child :
    (key tag : Text) (content : Fields) (r : ConfigError ⊎ (Bool × Node))
    → succeeds (set_child key tag content r) ≡ succeeds r
succeeds-set_child key tag content (inl e) = refl
succeeds-set_child key tag content (inr (c, n)) = refl

goes_through-is_mapping :
    (key : Text) (path : List Text) (n : Node)
    → is_mapping n ≡ false
    → goes_through key path n ≡ false
unfolding goes_through
goes_through-is_mapping key [] n h = h
goes_through-is_mapping key (next ∷ path) n h = rw h refl

opened-goes_through :
    (key : Text) (path : List Text) (o : Option Node)
    → goes_through key path (opened o)
      ≡ elim o [ none ↦ true | some v ↦ empty_node v || goes_through key path v ]
unfolding opened empty_yaml_node
opened-goes_through key path none = goes_through-empty key path
opened-goes_through key path (some v) = elim (Bool-cases (empty_node v)) [
  | inl h ↦ ground (arith, h, goes_through-empty key path)
  | inr h ↦ ground (arith, h)
]

guarded :
    (key next : Text) (path : List Text) (tag : Text) (content : Fields) (m : Node)
    → (r : ConfigError ⊎ (Bool × Node)) → succeeds r ≡ goes_through next path m
    → succeeds (if is_mapping m then set_child key tag content r else inl (not_mapping key))
      ≡ goes_through next path m
guarded key next path tag content m r h = elim (Bool-cases (is_mapping m)) [
  | inl e ↦ ground (arith, e, h, succeeds-set_child key tag content r)
  | inr e ↦ ground (arith, e, goes_through-is_mapping next path m e)
]

module _ (marshal : Marshal) where
  -- A write goes on below the key.
  set_next :
      (key next : Text) (path : List Text) (value : Node) (tag : Text) (content : Fields)
      → (c : Bool) (n' : Node)
      → set_mapping_path marshal key (next ∷ path) value (mapping tag content) ≡ inr (c, n')
      → (child : Node) × (set_mapping_path marshal next path value
            (opened (field_value key content))
          ≡ inr (c, child))
        × (n' ≡ mapping tag (put_field (scalar key) child content))
  unfolding set_mapping_path
  set_next key next path value tag content c n' e =
      elim (Bool-cases (is_mapping (opened (field_value key content)))) [
        | inl h ↦ set_child-inr key tag content _ c n' (
            subst
              (λ b.
                (if b
                  then set_child key tag content
                      (set_mapping_path marshal next path value (opened (field_value key content)))
                  else inl (not_mapping key))
                ≡ inr (c, n'))
              h e)
        | inr h ↦ absurd (ground (arith, e, h))
      ]

  pub set-value_at :
      (key : Text) (path : List Text) (value n n' : Node)
      → set_mapping_path marshal key path value n ≡ inr (true, n')
      → value_at (key ∷ path) n' ≡ some value
  unfolding set_mapping_path
  set-value_at key [] value (mapping tag content) n' e =
      let w = value_at-put_field key [] tag value content in ground (arith, e, w, clone_same value)
  set-value_at key (next ∷ path) value (mapping tag content) n' e =
      let (child, e1, e2) = set_next key next path value tag content true n' e in
      rw e2 (
        value_at-put_field key (next ∷ path) tag child content
        ∙ set-value_at next path value (opened (field_value key content)) child e1)
  set-value_at key path value n n' e = ground (arith, e)

  pub set-value_at_apart :
      (key : Text) (path : List Text) (value n n' : Node) (c : Bool) (q : List Text)
      → set_mapping_path marshal key path value n ≡ inr (c, n')
      → diverges (key ∷ path) q ≡ true
      → value_at q n' ≡ value_at q n
  unfolding set_mapping_path diverges
  set-value_at_apart key path value n n' c [] e d = ground (arith, d)
  set-value_at_apart key [] value (mapping tag content) n' c (k ∷ q) e d =
      let w = value_at-put_field_ne key k q tag value content in
      ground (arith, e, w, clone_same value)
  set-value_at_apart key (next ∷ path) value (mapping tag content) n' c (k ∷ q) e d =
      let (child, e1, e2) = set_next key next path value tag content c n' e in
      let ih = set-value_at_apart next path value (opened (field_value key content)) child c q e1 in
      elim (Bool-cases (key == k)) [
        | inl h ↦
            rw (e2, sym ((eq_iff key k).0 h))
              (value_at-put_field key q tag child content
                ∙ ih (ground (arith, d, h))
                ∙ opened-apart (next ∷ path) q (field_value key content) (ground (arith, d, h))
                ∙ sym (value_at-step key q tag content))
        | inr h ↦ rw e2 (value_at-put_field_ne key k q tag child content h)
      ]
  set-value_at_apart key path value n n' c q e d = ground (arith, e)

  pub set_unchanged :
      (key : Text) (path : List Text) (value n n' : Node)
      → set_mapping_path marshal key path value n ≡ inr (false, n')
      → (n' ≡ n)
        × (w : Node) × (value_at (key ∷ path) n ≡ some w)
        × (yaml_node_equal marshal w value ≡ true)
  unfolding set_mapping_path mapping_value
  set_unchanged key [] value (mapping tag content) n' e =
      elim (Option-cases (field_value key content)) [
        | inl h ↦ absurd (ground (arith, e, h))
        | inr (w, h) ↦ (
          ground (arith, e, h, clone_same value),
          w,
          ground (arith, h),
          ground (arith, e, h, clone_same value),
        )
      ]
  set_unchanged key (next ∷ path) value (mapping tag content) n' e =
      let (child, e1, e2) = set_next key next path value tag content false n' e in
      let (same, w, held, eq) =
        set_unchanged next path value (opened (field_value key content)) child e1 in
      let there = opened-held next path (field_value key content) w held in
      (
        e2 ∙ ap (mapping tag) (rw same (put_field-same (scalar key) _ content there)),
        w,
        value_at-there key (next ∷ path) tag content _ there ∙ held,
        eq,
      )
  set_unchanged key path value n n' e = absurd (ground (arith, e))

  set-goes_through :
      (key : Text) (path : List Text) (value n : Node)
      → succeeds (set_mapping_path marshal key path value n) ≡ goes_through key path n
  unfolding set_mapping_path goes_through mapping_value
  set-goes_through key [] value (mapping tag content) = ground arith
  set-goes_through key (next ∷ path) value (mapping tag content) =
      let m = opened (field_value key content) in
      guarded key next path tag content m (set_mapping_path marshal next path value m)
        (set-goes_through next path value m)
      ∙ opened-goes_through next path (field_value key content)
  set-goes_through key [] value n = ground arith
  set-goes_through key (next ∷ path) value n = ground arith
