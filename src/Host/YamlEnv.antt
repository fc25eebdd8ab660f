-- ===== src/Host/YamlEnv.antt =====
-- internal/yamlenv/env.go: values tagged !env stand for variables of the environment, which is the
-- parameter `getenv`. `Resolve` works on a copy, so an error leaves the caller's tree; the text of a
-- node's style is not kept. The node behind an alias is not part of the content, so it stays.
pub mod Laws
use anybot.Base.{
  List, [], ◌∷◌, ◌++◌, sym, ◌≡◌, refl, ap, ◌∙◌, subst, ◌⊎◌, inl, inr, Bool, true, false, arith,
  Bool-cases, Text, codes, if◌then◌else◌, trim_space, is_empty, ◌==◌,
}
use anybot.Host.Yaml.{
  Node, Nodes, Fields, no_node, document, sequence, mapping, scalar_node, alias, no_nodes, item,
  no_fields, field, str_tag, clone,
}
use anybot.Host.Yaml.Reads.{clone_same}

abbrev pub env_tag : Text
env_tag = codes "!env"

-- The errors, by the subject that they name.
pub data EnvError : Type 0 where
  must_be_scalar requires_name : Text → EnvError

abbrev subject_or_config : Text → Text
subject_or_config subject = if is_empty subject then codes "config" else subject

-- The content of a node once each part of it is resolved: the first error, or the parts together.
abbrev pub with_nodes : (Nodes → Node) → EnvError ⊎ Nodes → EnvError ⊎ Node
with_nodes f (inl e) = inl e
with_nodes f (inr content) = inr (f content)

abbrev pub with_fields : (Fields → Node) → EnvError ⊎ Fields → EnvError ⊎ Node
with_fields f (inl e) = inl e
with_fields f (inr content) = inr (f content)

abbrev pub item_of : EnvError ⊎ Node → EnvError ⊎ Nodes → EnvError ⊎ Nodes
item_of (inl e) _ = inl e
item_of (inr n) (inl e) = inl e
item_of (inr n) (inr rest) = inr (item n rest)

abbrev pub field_of : EnvError ⊎ Node → EnvError ⊎ Node → EnvError ⊎ Fields → EnvError ⊎ Fields
field_of (inl e) _ _ = inl e
field_of (inr k) (inl e) _ = inl e
field_of (inr k) (inr v) (inl e) = inl e
field_of (inr k) (inr v) (inr rest) = inr (field k v rest)

module _ (getenv : Text → Text) (subject : Text) where
  -- ResolveInPlace of a node, and its loop over the content, which takes the keys of a mapping too. The
  -- aliases point out of the tree, as those of a copy do.
  unfoldable mutual
    unfolding trim_space ◌==◌

    pub resolve_in_place : Node → EnvError ⊎ Node
    resolve_in_place no_node = inr no_node
    resolve_in_place (document content) = with_nodes document (resolve_nodes content)
    resolve_in_place (sequence tag content) =
        if tag == env_tag
        then inl (must_be_scalar (subject_or_config subject))
        else with_nodes (sequence tag) (resolve_nodes content)
    resolve_in_place (mapping tag content) =
        if tag == env_tag
        then inl (must_be_scalar (subject_or_config subject))
        else with_fields (mapping tag) (resolve_fields content)
    resolve_in_place (scalar_node tag value) =
        if tag == env_tag
        then if is_empty (trim_space value)
          then inl (requires_name (subject_or_config subject))
          else inr (scalar_node str_tag (getenv (trim_space value)))
        else inr (scalar_node tag value)
    resolve_in_place (alias value target) = inr (alias value target)

    pub resolve_nodes : Nodes → EnvError ⊎ Nodes
    resolve_nodes no_nodes = inr no_nodes
    resolve_nodes (item n rest) = item_of (resolve_in_place n) (resolve_nodes rest)

    pub resolve_fields : Fields → EnvError ⊎ Fields
    resolve_fields no_fields = inr no_fields
    resolve_fields (field k v rest) =
        field_of (resolve_in_place k) (resolve_in_place v) (resolve_fields rest)

  -- Resolve
  unfoldable pub resolve : Node → EnvError ⊎ Node
  unfolding resolve_in_place clone
  resolve node = resolve_in_place (clone node)

-- No node of the content is tagged !env; a node behind an alias may be.
mutual
  pub HasNoEnv : Node → Type 0
  HasNoEnv no_node = Unit
  HasNoEnv (document content) = NodesHaveNoEnv content
  HasNoEnv (sequence tag content) = ((tag == env_tag) ≡ false) × NodesHaveNoEnv content
  HasNoEnv (mapping tag content) = ((tag == env_tag) ≡ false) × FieldsHaveNoEnv content
  HasNoEnv (scalar_node tag value) = (tag == env_tag) ≡ false
  HasNoEnv (alias value target) = Unit

  pub NodesHaveNoEnv : Nodes → Type 0
  NodesHaveNoEnv no_nodes = Unit
  NodesHaveNoEnv (item n rest) = HasNoEnv n × NodesHaveNoEnv rest

  pub FieldsHaveNoEnv : Fields → Type 0
  FieldsHaveNoEnv no_fields = Unit
  FieldsHaveNoEnv (field k v rest) = HasNoEnv k × HasNoEnv v × FieldsHaveNoEnv rest

-- The nodes to which the aliases of the content point, in their order.
mutual
  pub targets : Node → List Node
  targets no_node = []
  targets (document content) = targets_of_nodes content
  targets (sequence tag content) = targets_of_nodes content
  targets (mapping tag content) = targets_of_fields content
  targets (scalar_node tag value) = []
  targets (alias value target) = target ∷ []

  pub targets_of_nodes : Nodes → List Node
  targets_of_nodes no_nodes = []
  targets_of_nodes (item n rest) = targets n ++ targets_of_nodes rest

  pub targets_of_fields : Fields → List Node
  targets_of_fields no_fields = []
  targets_of_fields (field k v rest) = targets k ++ (targets v ++ targets_of_fields rest)
