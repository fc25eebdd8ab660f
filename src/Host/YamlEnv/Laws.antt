-- ===== src/Host/YamlEnv/Laws.antt =====
-- internal/yamlenv/env.go: what is left of !env in a tree that is resolved.
use anybot.Base.{
  ◌≡◌, refl, sym, ap, ◌∙◌, subst, ◌⊎◌, inl, inr, Bool, true, false, arith, Bool-cases, Text,
  if◌then◌else◌, ◌==◌, is_empty, trim_space,
}
use anybot.Host.Yaml.{
  Node, Nodes, Fields, no_node, document, sequence, mapping, scalar_node, alias, no_nodes, item,
  no_fields, field, str_tag, clone,
}
use anybot.Host.Yaml.Reads.{clone_same}
use anybot.Host.YamlEnv.{
  EnvError, FieldsHaveNoEnv, HasNoEnv, NodesHaveNoEnv, env_tag, field_of, item_of, resolve,
  resolve_fields, resolve_in_place, resolve_nodes, targets, targets_of_fields, targets_of_nodes,
  with_fields, with_nodes,
}

with_nodes-inr :
    (f : Nodes → Node) (r : EnvError ⊎ Nodes) (n : Node)
    → with_nodes f r ≡ inr n
    → (ns : Nodes) × (r ≡ inr ns) × (f ns ≡ n)
with_nodes-inr f (inl _) n e = absurd (ground (arith, e))
with_nodes-inr f (inr ns) n e = (ns, refl, ground (arith, e))

with_fields-inr :
    (f : Fields → Node) (r : EnvError ⊎ Fields) (n : Node)
    → with_fields f r ≡ inr n
    → (fs : Fields) × (r ≡ inr fs) × (f fs ≡ n)
with_fields-inr f (inl _) n e = absurd (ground (arith, e))
with_fields-inr f (inr fs) n e = (fs, refl, ground (arith, e))

item_of-inr :
    (r : EnvError ⊎ Node) (rs : EnvError ⊎ Nodes) (ns : Nodes)
    → item_of r rs ≡ inr ns
    → (n : Node) × (rest : Nodes) × (r ≡ inr n) × (rs ≡ inr rest) × (item n rest ≡ ns)
item_of-inr (inl _) rs ns e = absurd (ground (arith, e))
item_of-inr (inr n) (inl _) ns e = absurd (ground (arith, e))
item_of-inr (inr n) (inr rest) ns e = (n, rest, refl, refl, ground (arith, e))

field_of-inr :
    (a b : EnvError ⊎ Node) (rs : EnvError ⊎ Fields) (fs : Fields)
    → field_of a b rs ≡ inr fs
    → (k : Node) × (v : Node) × (rest : Fields) × (a ≡ inr k)
      × (b ≡ inr v)
      × (rs ≡ inr rest)
      × (field k v rest ≡ fs)
field_of-inr (inl _) b rs fs e = absurd (ground (arith, e))
field_of-inr (inr k) (inl _) rs fs e = absurd (ground (arith, e))
field_of-inr (inr k) (inr v) (inl _) fs e = absurd (ground (arith, e))
field_of-inr (inr k) (inr v) (inr rest) fs e = (k, v, rest, refl, refl, refl, ground (arith, e))

if_false-inr :
    {A : Type 0} (b : Bool) (x : EnvError) (r : EnvError ⊎ A) (a : A)
    → (if b then inl x else r) ≡ inr a
    → (b ≡ false) × (r ≡ inr a)
if_false-inr true x r a e = absurd (ground (arith, e))
if_false-inr false x r a e = (refl, e)

module _ (getenv : Text → Text) (subject : Text) where
  mutual
    unfolding resolve_in_place HasNoEnv ◌==◌

    resolved : (n n' : Node) → resolve_in_place getenv subject n ≡ inr n' → HasNoEnv n'
    resolved no_node n' e = let same : no_node ≡ n' = ground (arith, e) in subst HasNoEnv same tt
    resolved (document content) n' e =
        let (ns, r, same) = with_nodes-inr document (resolve_nodes getenv subject content) n' e in
        subst HasNoEnv same (resolved_nodes content ns r)
    resolved (sequence tag content) n' e =
        let (t, e') =
          if_false-inr (tag == env_tag) _
            (with_nodes (sequence tag) (resolve_nodes getenv subject content)) n' e in
        let (ns, r, same) =
          with_nodes-inr (sequence tag) (resolve_nodes getenv subject content) n' e' in
        subst HasNoEnv same (t, resolved_nodes content ns r)
    resolved (mapping tag content) n' e =
        let (t, e') =
          if_false-inr (tag == env_tag) _
            (with_fields (mapping tag) (resolve_fields getenv subject content)) n' e in
        let (fs, r, same) =
          with_fields-inr (mapping tag) (resolve_fields getenv subject content) n' e' in
        subst HasNoEnv same (t, resolved_fields content fs r)
    resolved (scalar_node tag value) n' e = elim (Bool-cases (tag == env_tag)) [
      | inr t ↦
          let same : scalar_node tag value ≡ n' = ground (arith, e, t) in subst HasNoEnv same t
      | inl t ↦ elim (Bool-cases (is_empty (trim_space value))) [
        | inl b ↦ absurd (ground (arith, e, t, b))
        | inr b ↦
            let same : scalar_node str_tag (getenv (trim_space value)) ≡ n' =
              ground (arith, e, t, b) in
            subst HasNoEnv same refl
      ]
    ]
    resolved (alias value target) n' e =
        let same : alias value target ≡ n' = ground (arith, e) in subst HasNoEnv same tt

    resolved_nodes :
        (ns ns' : Nodes) → resolve_nodes getenv subject ns ≡ inr ns' → NodesHaveNoEnv ns'
    resolved_nodes no_nodes ns' e =
        let same : no_nodes ≡ ns' = ground (arith, e) in subst NodesHaveNoEnv same tt
    resolved_nodes (item n rest) ns' e =
        let (n', rest', a, b, same) =
          item_of-inr (resolve_in_place getenv subject n) (resolve_nodes getenv subject rest) ns'
            e in
        subst NodesHaveNoEnv same (resolved n n' a, resolved_nodes rest rest' b)

    resolved_fields :
        (fs fs' : Fields) → resolve_fields getenv subject fs ≡ inr fs' → FieldsHaveNoEnv fs'
    resolved_fields no_fields fs' e =
        let same : no_fields ≡ fs' = ground (arith, e) in subst FieldsHaveNoEnv same tt
    resolved_fields (field k v rest) fs' e =
        let (k', v', rest', a, b, c, same) =
          field_of-inr (resolve_in_place getenv subject k) (resolve_in_place getenv subject v)
            (resolve_fields getenv subject rest) fs' e in
        subst FieldsHaveNoEnv same (resolved k k' a, resolved v v' b, resolved_fields rest rest' c)

  mutual
    unfolding resolve_in_place HasNoEnv

    untagged : (n : Node) → HasNoEnv n → resolve_in_place getenv subject n ≡ inr n
    untagged no_node h = refl
    untagged (document content) h = rw (untagged_nodes content h) refl
    untagged (sequence tag content) (t, h) = rw (t, untagged_nodes content h) refl
    untagged (mapping tag content) (t, h) = rw (t, untagged_fields content h) refl
    untagged (scalar_node tag value) h = rw h refl
    untagged (alias value target) h = refl

    untagged_nodes : (ns : Nodes) → NodesHaveNoEnv ns → resolve_nodes getenv subject ns ≡ inr ns
    untagged_nodes no_nodes h = refl
    untagged_nodes (item n rest) (h, hs) = rw (untagged n h, untagged_nodes rest hs) refl

    untagged_fields : (fs : Fields) → FieldsHaveNoEnv fs → resolve_fields getenv subject fs ≡ inr fs
    untagged_fields no_fields h = refl
    untagged_fields (field k v rest) (h, h', hs) =
        rw (untagged k h, untagged v h', untagged_fields rest hs) refl

  mutual
    unfolding resolve_in_place targets ◌==◌

    aimed : (n n' : Node) → resolve_in_place getenv subject n ≡ inr n' → targets n' ≡ targets n
    aimed no_node n' e = let same : no_node ≡ n' = ground (arith, e) in sym (ap targets same)
    aimed (document content) n' e =
        let (ns, r, same) = with_nodes-inr document (resolve_nodes getenv subject content) n' e in
        sym (ap targets same) ∙ aimed_nodes content ns r
    aimed (sequence tag content) n' e =
        let (t, e') =
          if_false-inr (tag == env_tag) _
            (with_nodes (sequence tag) (resolve_nodes getenv subject content)) n' e in
        let (ns, r, same) =
          with_nodes-inr (sequence tag) (resolve_nodes getenv subject content) n' e' in
        sym (ap targets same) ∙ aimed_nodes content ns r
    aimed (mapping tag content) n' e =
        let (t, e') =
          if_false-inr (tag == env_tag) _
            (with_fields (mapping tag) (resolve_fields getenv subject content)) n' e in
        let (fs, r, same) =
          with_fields-inr (mapping tag) (resolve_fields getenv subject content) n' e' in
        sym (ap targets same) ∙ aimed_fields content fs r
    aimed (scalar_node tag value) n' e = elim (Bool-cases (tag == env_tag)) [
      | inr t ↦
          let same : scalar_node tag value ≡ n' = ground (arith, e, t) in sym (ap targets same)
      | inl t ↦ elim (Bool-cases (is_empty (trim_space value))) [
        | inl b ↦ absurd (ground (arith, e, t, b))
        | inr b ↦
            let same : scalar_node str_tag (getenv (trim_space value)) ≡ n' =
              ground (arith, e, t, b) in
            sym (ap targets same)
      ]
    ]
    aimed (alias value target) n' e =
        let same : alias value target ≡ n' = ground (arith, e) in sym (ap targets same)

    aimed_nodes :
        (ns ns' : Nodes)
        → resolve_nodes getenv subject ns ≡ inr ns'
        → targets_of_nodes ns' ≡ targets_of_nodes ns
    aimed_nodes no_nodes ns' e =
        let same : no_nodes ≡ ns' = ground (arith, e) in sym (ap targets_of_nodes same)
    aimed_nodes (item n rest) ns' e =
        let (n', rest', a, b, same) =
          item_of-inr (resolve_in_place getenv subject n) (resolve_nodes getenv subject rest) ns'
            e in
        sym (ap targets_of_nodes same) ∙ rw (aimed n n' a, aimed_nodes rest rest' b) refl

    aimed_fields :
        (fs fs' : Fields)
        → resolve_fields getenv subject fs ≡ inr fs'
        → targets_of_fields fs' ≡ targets_of_fields fs
    aimed_fields no_fields fs' e =
        let same : no_fields ≡ fs' = ground (arith, e) in sym (ap targets_of_fields same)
    aimed_fields (field k v rest) fs' e =
        let (k', v', rest', a, b, c, same) =
          field_of-inr (resolve_in_place getenv subject k) (resolve_in_place getenv subject v)
            (resolve_fields getenv subject rest) fs' e in
        sym (ap targets_of_fields same)
        ∙ rw (aimed k k' a, aimed v v' b, aimed_fields rest rest' c) refl

  -- No node of the content of a tree that Resolve gives is tagged !env, and Resolve of it gives it back.
  -- The nodes behind its aliases are those of the tree that was given, as they were: one that is tagged
  -- !env still is.
  pub resolve_lem :
      (n n' : Node)
      → resolve getenv subject n ≡ inr n'
      → HasNoEnv n' × (targets n' ≡ targets n) × (resolve getenv subject n' ≡ inr n')
  unfolding resolve
  resolve_lem n n' e =
      let h = resolved (clone n) n' e in
      (
        h,
        aimed (clone n) n' e ∙ ap targets (clone_same n),
        ap (resolve_in_place getenv subject) (clone_same n') ∙ untagged n' h,
      )
