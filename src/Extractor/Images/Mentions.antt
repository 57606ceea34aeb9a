-- ===== src/Extractor/Images/Mentions.antt =====
-- Which images a document mentions, as a relation.
use yk_update_checker.Text.{Text, contains, codes, contains_three_iff}
use yk_update_checker.Extractor.Images.{container_list_keys}
use yk_update_checker.Extractor.Node.{
  Node, Nodes, Pairs, sequence, cons, pair, mapping, pairs_value, alias, scalar, document,
}
use yk_update_checker.Prelude.{◌≡◌, ℕ, some, ◌≢◌, [], true, ◌↔◌, ◌⊎◌}

pub data InNodes (n : Node) : Nodes → Type 0 where
  here : (ns : Nodes) → InNodes n (cons n ns)
  there : (m : Node) (ns : Nodes) → InNodes n ns → InNodes n (cons m ns)

pub data InPairs (k : Text) (v : Node) : Pairs → Type 0 where
  first : (ps : Pairs) → InPairs k v (pair k v ps)
  later : (j : Text) (w : Node) (ps : Pairs) → InPairs k v ps → InPairs k v (pair j w ps)

-- The keys that a pod template lists its containers under.
abbrev pub IsListKey : Text → Type 0
IsListKey k =
    (k ≡ codes "containers") ⊎ (k ≡ codes "initContainers") ⊎ (k ≡ codes "ephemeralContainers")

-- The keys of the code are those.
pub container_list_keys_iff : (k : Text) → (contains container_list_keys k ≡ true) ↔ IsListKey k
container_list_keys_iff k = contains_three_iff _ _ _ k

-- An entry of a container list that has the image.
pub record IsContainer (image : Text) (n : Node) : Type 0 where
  pub entries : Pairs
  pub shape : n ≡ mapping entries
  pub named : pairs_value (codes "image") entries ≡ some (scalar image)
  pub given : image ≢ []

-- A document mentions an image: in a container list of one of its mappings, at any depth. Aliases
-- lead to mappings too; the list, its entry and the image stand in their places, not under an alias.
pub data Mentions (anchors : ℕ → Node) (image : Text) : Node → Type 0 where
  container :
      (k : Text) (n : Node) (ns : Nodes) (ps : Pairs)
      → InPairs k (sequence ns) ps
      → IsListKey k
      → InNodes n ns
      → IsContainer image n
      → Mentions anchors image (mapping ps)
  below :
      (k : Text) (v : Node) (ps : Pairs)
      → InPairs k v ps
      → Mentions anchors image v
      → Mentions anchors image (mapping ps)
  item :
      (n : Node) (ns : Nodes)
      → InNodes n ns
      → Mentions anchors image n
      → Mentions anchors image (sequence ns)
  root :
      (n : Node) (ns : Nodes)
      → InNodes n ns
      → Mentions anchors image n
      → Mentions anchors image (document ns)
  aliased : (a : ℕ) → Mentions anchors image (anchors a) → Mentions anchors image (alias a)
