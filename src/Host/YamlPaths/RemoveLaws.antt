-- ===== src/Host/YamlPaths/RemoveLaws.antt =====
-- What removeMappingPath does to the value behind each path, in a tree whose mappings hold a key
-- once.
use anybot.Base.{
  ◌≡◌, refl, sym, ap, ◌∙◌, subst, ◌⊎◌, inl, inr, Bool, true, false, Option, none, some, List, [],
  ◌∷◌, arith, Bool-cases, Option-cases, Text, eq_refl, ◌==◌, is_some, eq_iff,
}
use anybot.Host.Yaml.{
  Node, Fields, mapping, no_fields, field, scalar, is_mapping, has_no_content, empty_node,
  empty_yaml_node, field_value, put_field, mapping_value, remove_field, remove_mapping_key,
}
use anybot.Host.Yaml.Reads.{field_value-remove_field, KeysDistinct, KeysOnce, field_value-KeysOnce}
use anybot.Host.YamlPaths.{ConfigError, remove_mapping_path, remove_child}
use anybot.Host.YamlPaths.SetLaws.{
  value_at, value_at-put_field, value_at-put_field_ne, value_at-there, diverges,
}

value_at-remove_field :
    (key : Text) (q : List Text) (tag : Text) (fs : Fields)
    → KeysDistinct fs
    → value_at (key ∷ q) (mapping tag (remove_field key fs)) ≡ none
unfolding mapping_value
value_at-remove_field key q tag fs d =
    ground (arith, field_value-remove_field key key fs d, eq_refl key)

value_at-remove_field_ne :
    (key other : Text) (q : List Text) (tag : Text) (fs : Fields)
    → KeysDistinct fs
    → (key == other) ≡ false
    → value_at (other ∷ q) (mapping tag (remove_field key fs))
      ≡ value_at (other ∷ q) (mapping tag fs)
unfolding mapping_value
value_at-remove_field_ne key other q tag fs d h =
    ground (arith, field_value-remove_field key other fs d, h)

value_at_no_content :
    (p q : List Text) (n : Node)
    → diverges p q ≡ true
    → has_no_content n ≡ true
    → value_at q n ≡ none
unfolding diverges mapping_value field_value
value_at_no_content [] [] n d h = ground (arith, d)
value_at_no_content (_ ∷ _) [] n d h = ground (arith, d)
value_at_no_content p (k ∷ q) (mapping tag no_fields) d h = refl
value_at_no_content p (k ∷ q) (mapping tag (field _ _ _)) d h = absurd (ground (arith, h))
value_at_no_content p (k ∷ q) n d h = refl

pub value_at_empty :
    (k : Text) (q : List Text) (n : Node) → empty_node n ≡ true → value_at (k ∷ q) n ≡ none
unfolding empty_node mapping_value field_value
value_at_empty k q (mapping tag no_fields) h = refl
value_at_empty k q (mapping tag (field _ _ _)) h = absurd (ground (arith, h))
value_at_empty k q n h = refl

-- What a removal below a key comes to: nothing, or a change of the value that the key holds, which
-- goes when it is left without content.
abbrev Kept : Text → Text → List Text → Text → Fields → Bool → Node → Type 0
Kept key next path tag content b n' =
    (b ≡ false)
    × (n' ≡ mapping tag content)
    × ((value_at (key ∷ next ∷ path) (mapping tag content) ≡ none)
        ⊎ ((existing : Node) × (child : Node) × (field_value key content ≡ some existing)
            × (remove_mapping_path next path existing ≡ inr (false, child))))

abbrev Cut : Text → Text → List Text → Text → Fields → Bool → Node → Type 0
Cut key next path tag content b n' =
    (existing : Node) × (child : Node) × (b ≡ true)
    × (field_value key content ≡ some existing)
    × (remove_mapping_path next path existing ≡ inr (true, child))
    × (((has_no_content child ≡ true) × (n' ≡ mapping tag (remove_field key content)))
        ⊎ (n' ≡ mapping tag (put_field (scalar key) child content)))

remove_found :
    (key next : Text) (path : List Text) (tag : Text) (content : Fields) (existing : Node)
    → (r : ConfigError ⊎ (Bool × Node)) (b : Bool) (n' : Node)
    → field_value key content ≡ some existing
    → remove_mapping_path next path existing ≡ r
    → remove_child key tag content r ≡ inr (b, n')
    → Kept key next path tag content b n' ⊎ Cut key next path tag content b n'
remove_found key next path tag content existing (inl _) b n' f r e = absurd (ground (arith, e))
remove_found key next path tag content existing (inr (false, child)) b n' f r e =
    inl (ground (arith, e), ground (arith, e), inr (existing, child, f, r))
remove_found key next path tag content existing (inr (true, child)) b n' f r e =
    elim (Bool-cases (has_no_content child)) [
      | inl h ↦ inr (existing, child, ground (arith, e, h), f, r, inl (h, ground (arith, e, h)))
      | inr h ↦ inr (existing, child, ground (arith, e, h), f, r, inr (ground (arith, e, h)))
    ]

remove_next :
    (key next : Text) (path : List Text) (tag : Text) (content : Fields) (b : Bool) (n' : Node)
    → remove_mapping_path key (next ∷ path) (mapping tag content) ≡ inr (b, n')
    → Kept key next path tag content b n' ⊎ Cut key next path tag content b n'
unfolding remove_mapping_path empty_yaml_node mapping_value
remove_next key next path tag content b n' e = elim (Option-cases (field_value key content)) [
  | inl f ↦ inl (ground (arith, f, e), ground (arith, f, e), inl (ground (arith, f)))
  | inr (existing, f) ↦ elim (Bool-cases (empty_node existing)) [
    | inl h ↦ inl (
      ground (arith, f, h, e),
      ground (arith, f, h, e),
      inl (ground (arith, f, value_at_empty next path existing h)),
    )
    | inr h ↦ elim (Bool-cases (is_mapping existing)) [
      | inl m ↦
          remove_found key next path tag content existing _ b n' f refl (ground (arith, f, h, m, e))
      | inr m ↦ absurd (ground (arith, f, h, m, e))
    ]
  ]
]

-- What a removal that reports no error says of the tree after it.
abbrev pub Removed : List Text → Node → Bool → Node → Type 0
Removed p n b n' =
    (value_at p n' ≡ none)
    × ((q : List Text) → diverges p q ≡ true → value_at q n' ≡ value_at q n)
    × (b ≡ is_some (value_at p n))
    × (b ≡ false → n' ≡ n)

Removed-same :
    (p : List Text) (n n' : Node) (b : Bool)
    → b ≡ false
    → n' ≡ n
    → value_at p n ≡ none
    → Removed p n b n'
Removed-same p n n' b e1 e2 h =
    (rw e2 h, λ q d. ap (value_at q) e2, e1 ∙ sym (ap is_some h), λ _. e2)

-- A removal below a key: the value that the key holds after it is `after`.
Removed-cut :
    (key : Text) (p : List Text) (n n' : Node) (b : Bool) (v : Node)
    → b ≡ true
    → value_at (key ∷ p) n ≡ some v
    → value_at (key ∷ p) n' ≡ none
    → ((q : List Text) → diverges p q ≡ true → value_at (key ∷ q) n' ≡ value_at (key ∷ q) n)
    → ((k : Text) (q : List Text) → (key == k) ≡ false → value_at (k ∷ q) n' ≡ value_at (k ∷ q) n)
    → Removed (key ∷ p) n b n'
unfolding diverges
Removed-cut key p n n' b v e there gone same other =
    (gone, apart, e ∙ sym (ap is_some there), λ h. absurd (ground (arith, e, h)))
  where
    apart : (q : List Text) → diverges (key ∷ p) q ≡ true → value_at q n' ≡ value_at q n
    apart [] d = absurd (ground (arith, d))
    apart (k ∷ q) d = elim (Bool-cases (key == k)) [
      | inl h ↦
          subst (λ k'. value_at (k' ∷ q) n' ≡ value_at (k' ∷ q) n) ((eq_iff key k).0 h)
            (same q (ground (arith, h, d)))
      | inr h ↦ other k q h
    ]

is_some-none {ℓ} : {A : Type ℓ} (o : Option A) → false ≡ is_some o → o ≡ none
is_some-none none h = refl
is_some-none (some a) h = absurd (ground (arith, h))

is_some-some {ℓ} : {A : Type ℓ} (o : Option A) → true ≡ is_some o → (a : A) × (o ≡ some a)
is_some-some none h = absurd (ground (arith, h))
is_some-some (some a) h = (a, refl)

-- In a tree whose mappings hold each key once, a removal that reports no error leaves nothing behind
-- the path, and every path that parts from it holds what it held. It reports whether the path held
-- something, and where it did not the tree is the same.
pub remove_mapping_path_lem :
    (key : Text) (path : List Text) (n n' : Node) (b : Bool)
    → KeysOnce n
    → remove_mapping_path key path n ≡ inr (b, n')
    → Removed (key ∷ path) n b n'
unfolding remove_mapping_path remove_mapping_key KeysOnce mapping_value diverges
remove_mapping_path_lem key [] (mapping tag content) n' b (d, ds) e =
    elim (Option-cases (field_value key content)) [
      | inl f ↦
          Removed-same (key ∷ []) (mapping tag content) n' b (ground (arith, e, f))
            (ground (arith, e, f)) (ground (arith, f))
      | inr (v, f) ↦
          let cut : mapping tag (remove_field key content) ≡ n' = ground (arith, e, f) in
          rw (sym cut) (
            Removed-cut key [] (mapping tag content) _ b v (ground (arith, e, f))
              (ground (arith, f)) (value_at-remove_field key [] tag content d)
              (λ q h. absurd (ground (arith, h)))
              (λ k q h. value_at-remove_field_ne key k q tag content d h))
    ]
remove_mapping_path_lem key (next ∷ path) (mapping tag content) n' b (d, ds) e =
    elim (remove_next key next path tag content b n' e) [
      | inl (e1, e2, inl h) ↦ Removed-same (key ∷ next ∷ path) _ _ b e1 e2 h
      | inl (e1, e2, inr (existing, child, f, r)) ↦
          let once = field_value-KeysOnce key existing content ds f in
          let (_, _, there, same) = remove_mapping_path_lem next path existing child false once r in
          Removed-same (key ∷ next ∷ path) _ _ b e1 e2
            (value_at-there key (next ∷ path) tag content existing f ∙ is_some-none _ there)
      | inr (existing, child, e1, f, r, way) ↦
          let once = field_value-KeysOnce key existing content ds f in
          let (gone, apart, there, _) =
            remove_mapping_path_lem next path existing child true once r in
          let (v, held) = is_some-some _ there in
          elim way [
            | inl (h, e2) ↦ rw e2 (
                Removed-cut key (next ∷ path) (mapping tag content) _ b v e1
                  (value_at-there key (next ∷ path) tag content existing f ∙ held)
                  (value_at-remove_field key (next ∷ path) tag content d)
                  (λ q dv.
                    value_at-remove_field key q tag content d
                    ∙ sym (value_at_no_content (next ∷ path) q child dv h)
                    ∙ apart q dv
                    ∙ sym (value_at-there key q tag content existing f))
                  (λ k q ne. value_at-remove_field_ne key k q tag content d ne))
            | inr e2 ↦ rw e2 (
                Removed-cut key (next ∷ path) (mapping tag content) _ b v e1
                  (value_at-there key (next ∷ path) tag content existing f ∙ held)
                  (value_at-put_field key (next ∷ path) tag child content ∙ gone)
                  (λ q dv.
                    value_at-put_field key q tag child content
                    ∙ apart q dv
                    ∙ sym (value_at-there key q tag content existing f))
                  (λ k q ne. value_at-put_field_ne key k q tag child content ne))
          ]
    ]
remove_mapping_path_lem key path n n' b k e = absurd (ground (arith, e))
