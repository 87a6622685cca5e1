-- ===== src/Authapp/Yaml.antt =====
-- internal/authapp/config_decoder.go and config_yaml.go: the text of a configuration is decoded, from
-- JSON or from one YAML document.
use orionis.Base.{ℕ, Bool, Option, none, some, List, [], ◌∷◌, if◌then◌else◌}
use orionis.Text.{Text, codes, text_eq, cut_prefix}
use orionis.Authapp.Config.{WireConfig}

-- A YAML node, with its tag, its value and the nodes below it.
mutual
  pub data Node : Type 0 where
    node : Text → Text → Nodes → Node

  pub data Nodes : Type 0 where
    no_nodes : Nodes
    more : Node → Nodes → Nodes

string_tag : Text → Text
string_tag tag = if text_eq tag (codes "!!timestamp") then codes "!!str" else tag

unfoldable mutual
  unfolding string_tag

  pub preserve_yaml_strings : Node → Node
  preserve_yaml_strings (node tag value content) =
      node (string_tag tag) value (preserve_all content)

  pub preserve_all : Nodes → Nodes
  preserve_all no_nodes = no_nodes
  preserve_all (more child content) = more (preserve_yaml_strings child) (preserve_all content)

-- What the YAML decoder finds next in the bytes: the end, something malformed, or a document and the
-- rest.
pub data Next : Type 0 where
  eof malformed : Next
  document : Node → List ℕ → Next

-- encoding/json and gopkg.in/yaml.v3: json.Valid, json.Unmarshal into the form on the wire, the decoder
-- of YAML, and a node decoded to a value, which json.Marshal turns into JSON. `none` is an error.
pub record Decoders : Type 1 where
  pub Value : Type 0
  pub is_valid : List ℕ → Bool
  pub unmarshal : List ℕ → Option WireConfig
  pub next : List ℕ → Next
  pub decode_node : Node → Option Value
  pub marshal : Value → Option (List ℕ)

module _ (d : Decoders) where
  of_json : Option (List ℕ) → Option WireConfig
  of_json none = none
  of_json (some raw) = d.unmarshal raw

  of_value : Option d.Value → Option WireConfig
  unfolding of_json
  of_value none = none
  of_value (some v) = of_json (d.marshal v)

  -- The document is the only one.
  only : Node → Next → Option WireConfig
  unfolding of_value
  only doc malformed = none
  only doc (document extra rest) = none
  only doc eof = of_value (d.decode_node (preserve_yaml_strings doc))

  of_document : Next → Option WireConfig
  unfolding only
  of_document eof = none
  of_document malformed = none
  of_document (document doc rest) = only doc (d.next rest)

  unfoldable pub decode_yaml_config : List ℕ → Option WireConfig
  unfolding of_document
  decode_yaml_config raw = of_document (d.next raw)

  -- The rest behind a byte order mark.
  without_mark : Option Text → List ℕ → List ℕ
  without_mark none raw = raw
  without_mark (some rest) raw = rest

  unfoldable pub decode_config : List ℕ → Option WireConfig
  unfolding without_mark
  decode_config raw =
      let text = without_mark (cut_prefix raw (0xef ∷ 0xbb ∷ 0xbf ∷ [])) raw in
      if d.is_valid text then d.unmarshal text else decode_yaml_config text
