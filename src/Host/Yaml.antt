-- ===== src/Host/Yaml.antt =====
-- app/host/config_update.go and internal/yamlenv/env.go: the tree of gopkg.in/yaml.v3, as far as the
-- code reads it, and the functions that take one apart. A constructor is a kind; a node keeps its
-- tag and its value. A mapping holds its content as pairs of a key and a value, as the decoder
-- builds it. A changed node is a new tree; a node's anchor is not kept, nor that an alias sees a
-- change of the node to which it points.
pub mod Reads
use anybot.Base.{
  ℕ, zero, suc, ◌+◌, ◌-◌, ◌≤◌, ◌<◌, ◌≡◌, refl, sym, ap, ◌∙◌, subst, ◌≢◌, ◌↔◌, ◌⊎◌, inl, inr, Bool,
  true, false, not, ◌&&◌, ◌||◌, Option, none, some, List, [], ◌∷◌, ◌++◌, map, arith, Bool-cases,
  Option-cases, Text, codes, if◌then◌else◌, is_some, ◌==◌,
}

mutual
  pub data Node : Type 0 where
    -- Kind 0, what the decoder leaves of an empty file
    no_node : Node
    document : Nodes → Node
    sequence : Text → Nodes → Node
    mapping : Text → Fields → Node
    scalar_node : Text → Text → Node
    -- an alias has the name of an anchor and points to the node that carries it
    alias : Text → Node → Node

  pub data Nodes : Type 0 where
    no_nodes : Nodes
    item : Node → Nodes → Nodes

  pub data Fields : Type 0 where
    no_fields : Fields
    field : Node → Node → Fields → Fields

abbrev pub map_tag : Text
map_tag = codes "!!map"

abbrev pub null_tag : Text
null_tag = codes "!!null"

abbrev pub bool_tag : Text
bool_tag = codes "!!bool"

abbrev pub str_tag : Text
str_tag = codes "!!str"

-- node.Value
abbrev pub node_text : Node → Text
node_text (scalar_node _ value) = value
node_text (alias value _) = value
node_text _ = []

abbrev pub scalar : Text → Node
scalar value = scalar_node str_tag value

abbrev pub bool_value : Bool → Text
bool_value b = if b then codes "true" else codes "false"

abbrev pub bool_node : Bool → Node
bool_node b = scalar_node bool_tag (bool_value b)

abbrev pub empty_config_node : Node
empty_config_node = mapping map_tag no_fields

abbrev pub plugin_entry_node : Node → Node
plugin_entry_node config = mapping map_tag (
    field (scalar (codes "enabled")) (bool_node false)
      (field (scalar (codes "config")) config no_fields))

-- node.Kind == yaml.MappingNode
abbrev pub is_mapping : Node → Bool
is_mapping (mapping _ _) = true
is_mapping _ = false

-- node.Kind == yaml.ScalarNode && node.Tag == "!!null"
unfoldable pub is_null : Node → Bool
is_null (scalar_node tag _) = tag == null_tag
is_null _ = false

abbrev pub has_no_fields : Fields → Bool
has_no_fields no_fields = true
has_no_fields (field _ _ _) = false

-- len(node.Content) == 0
abbrev pub has_no_content : Node → Bool
has_no_content (document (item _ _)) = false
has_no_content (sequence _ (item _ _)) = false
has_no_content (mapping _ content) = has_no_fields content
has_no_content _ = true

-- emptyYAMLNode of a node that is not nil, and of one that may be
unfoldable pub empty_node : Node → Bool
empty_node no_node = true
empty_node (scalar_node tag value) = is_null (scalar_node tag value)
empty_node (mapping _ content) = has_no_fields content
empty_node _ = false

unfoldable pub empty_yaml_node : Option Node → Bool
empty_yaml_node none = true
empty_yaml_node (some n) = empty_node n

-- The content of a mapping: the value behind the first key of that text, its keys, the mapping with
-- that value replaced or the pair added at the end, and the mapping without that pair.
unfoldable pub field_value : Text → Fields → Option Node
field_value key no_fields = none
field_value key (field k v rest) = if node_text k == key then some v else field_value key rest

unfoldable pub mapping_value : Node → Text → Option Node
mapping_value (mapping _ content) key = field_value key content
mapping_value _ key = none

abbrev pub field_keys : Fields → List Text
field_keys no_fields = []
field_keys (field k _ rest) = node_text k ∷ field_keys rest

unfoldable pub mapping_keys : Node → List Text
mapping_keys (mapping _ content) = field_keys content
mapping_keys _ = []

unfoldable pub put_field : Node → Node → Fields → Fields
put_field key new no_fields = field key new no_fields
put_field key new (field k v rest) =
    if node_text k == node_text key then field k new rest else field k v (put_field key new rest)

unfoldable pub remove_field : Text → Fields → Fields
remove_field key no_fields = no_fields
remove_field key (field k v rest) =
    if node_text k == key then rest else field k v (remove_field key rest)

unfoldable pub remove_mapping_key : Node → Text → Bool × Node
remove_mapping_key (mapping tag content) key =
    if is_some (field_value key content)
    then (true, mapping tag (remove_field key content))
    else (false, mapping tag content)
remove_mapping_key n key = (false, n)

-- cloneYAMLNode, and yamlenv.Clone: the copy of every node. The copy of an alias points to the same
-- node as the alias does, outside the copy.
unfoldable mutual
  pub clone : Node → Node
  clone no_node = no_node
  clone (document content) = document (clone_nodes content)
  clone (sequence tag content) = sequence tag (clone_nodes content)
  clone (mapping tag content) = mapping tag (clone_fields content)
  clone (scalar_node tag value) = scalar_node tag value
  clone (alias value target) = alias value target

  pub clone_nodes : Nodes → Nodes
  clone_nodes no_nodes = no_nodes
  clone_nodes (item n rest) = item (clone n) (clone_nodes rest)

  pub clone_fields : Fields → Fields
  clone_fields no_fields = no_fields
  clone_fields (field k v rest) = field (clone k) (clone v) (clone_fields rest)

-- documentRoot: an empty document is given an empty mapping.
unfoldable pub document_root : Node → Node
document_root (document no_nodes) = empty_config_node
document_root (document (item n _)) = n
document_root n = n
