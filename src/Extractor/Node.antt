-- ===== src/Extractor/Node.antt =====
-- YAML nodes as the extractors see them: `yaml.Node` of the YAML library, in the parts that
-- internal/extractor/images.go reads. A key is its `Value`; an alias is the number of its anchor,
-- and a document comes with the nodes of its anchors.
use yk_update_checker.Prelude.{Option, ℕ, some, none, [], if◌then◌else◌}
use yk_update_checker.Text.{Text, text_eq}

mutual
  pub data Node : Type 0 where
    scalar : Text → Node
    mapping : Pairs → Node
    sequence : Nodes → Node
    document : Nodes → Node
    alias : ℕ → Node

  pub data Nodes : Type 0 where
    nil : Nodes
    cons : Node → Nodes → Nodes

  pub data Pairs : Type 0 where
    end : Pairs
    pair : Text → Node → Pairs → Pairs

-- `mappingValue`, `mappingScalar`
unfoldable pub pairs_value : Text → Pairs → Option Node
unfolding text_eq
pairs_value key end = none
pairs_value key (pair k v ps) = if text_eq k key then some v else pairs_value key ps

abbrev pub mapping_value : Node → Text → Option Node
mapping_value (mapping ps) key = pairs_value key ps
mapping_value _ key = none

abbrev pub scalar_text : Option Node → Text
scalar_text (some (scalar s)) = s
scalar_text _ = []

abbrev pub mapping_scalar : Node → Text → Text
mapping_scalar n key = scalar_text (mapping_value n key)

-- `mappingScalar` on a node that may be missing
abbrev pub inner_scalar : Option Node → Text → Text
inner_scalar none key = []
inner_scalar (some n) key = mapping_scalar n key
