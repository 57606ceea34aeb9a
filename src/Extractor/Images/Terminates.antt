-- ===== src/Extractor/Images/Terminates.antt =====
-- When the walk over a document ends: if aliases lead downwards. An anchor with an alias to itself
-- below it makes it run for ever.
use yk_update_checker.Text.{Text}
use yk_update_checker.Extractor.Node.{
  Node, alias, scalar, Nodes, mapping, Pairs, sequence, document, cons, pair, nil, end,
}
use yk_update_checker.Extractor.Images.{
  for_each_image, alias_images, node_images, both, nodes_images, pairs_images, listed_images,
}
use yk_update_checker.Prelude.{
  ◌≡◌, ℕ, Option, List, none, ◌<◌, arith, suc, [], some, ◌++◌, refl, zero,
}

abbrev Ended : Option (List Text) → Type 0
Ended o = (l : List Text) × (o ≡ some l)

both-Ended : (o p : Option (List Text)) → Ended o → Ended p → Ended (both o p)
both-Ended o p (xs, e) (ys, f) = (xs ++ ys, rw (e, f) refl)

both-none : (o : Option (List Text)) → both o none ≡ none
both-none none = refl
both-none (some xs) = refl

module _ (rank : ℕ → ℕ) where
  -- All aliases in a node have a rank below `k`.
  unfoldable mutual
    pub NodeBelow : ℕ → Node → Type 0
    NodeBelow k (scalar s) = Unit
    NodeBelow k (mapping ps) = PairsBelow k ps
    NodeBelow k (sequence ns) = NodesBelow k ns
    NodeBelow k (document ns) = NodesBelow k ns
    NodeBelow k (alias a) = rank a < k

    pub NodesBelow : ℕ → Nodes → Type 0
    NodesBelow k nil = Unit
    NodesBelow k (cons n ns) = NodeBelow k n × NodesBelow k ns

    pub PairsBelow : ℕ → Pairs → Type 0
    PairsBelow k end = Unit
    PairsBelow k (pair j v ps) = NodeBelow k v × PairsBelow k ps

  mutual
    unfolding node_images NodeBelow

    node_ends :
        (deref : ℕ → Option (List Text)) (k : ℕ) (n : Node)
        → ((b : ℕ) → rank b < k → Ended (deref b))
        → NodeBelow k n
        → Ended (node_images deref n)
    node_ends deref k (scalar s) d h = ([], refl)
    node_ends deref k (mapping ps) d h = pairs_ends deref k ps d h
    node_ends deref k (sequence ns) d h = nodes_ends deref k ns d h
    node_ends deref k (document ns) d h = nodes_ends deref k ns d h
    node_ends deref k (alias a) d h = d a h

    nodes_ends :
        (deref : ℕ → Option (List Text)) (k : ℕ) (ns : Nodes)
        → ((b : ℕ) → rank b < k → Ended (deref b))
        → NodesBelow k ns
        → Ended (nodes_images deref ns)
    nodes_ends deref k nil d h = ([], refl)
    nodes_ends deref k (cons n ns) d (h, g) =
        both-Ended _ _ (node_ends deref k n d h) (nodes_ends deref k ns d g)

    pairs_ends :
        (deref : ℕ → Option (List Text)) (k : ℕ) (ps : Pairs)
        → ((b : ℕ) → rank b < k → Ended (deref b))
        → PairsBelow k ps
        → Ended (pairs_images deref ps)
    pairs_ends deref k end d h = ([], refl)
    pairs_ends deref k (pair j v ps) d (h, g) =
        both-Ended _ _
          (both-Ended (some (listed_images j v)) _ (listed_images j v, refl)
            (node_ends deref k v d h))
          (pairs_ends deref k ps d g)

  module _ (anchors : ℕ → Node) (down : (a : ℕ) → NodeBelow (rank a) (anchors a)) where
    alias_ends : (fuel a : ℕ) → rank a < fuel → Ended (alias_images anchors fuel a)
    unfolding alias_images
    alias_ends zero a h = absurd (omega arith)
    alias_ends (suc fuel) a h =
        node_ends (alias_images anchors fuel) (rank a) (anchors a)
          (λ b k. alias_ends fuel b (omega arith)) (down a)

    -- If every alias in the node of an anchor leads to an anchor of a smaller rank, the walk over a
    -- node ends, with fuel above the ranks of the aliases in it.
    pub for_each_image-ends :
        (fuel : ℕ) (n : Node)
        → NodeBelow fuel n
        → (l : List Text) × (for_each_image anchors fuel n ≡ some l)
    unfolding for_each_image
    for_each_image-ends fuel n h =
        node_ends (alias_images anchors fuel) fuel n (λ b k. alias_ends fuel b k) h

-- An alias to the anchor stands in the node, outside other anchors' nodes.
mutual
  pub data Holds (a : ℕ) : Node → Type 0 where
    at_alias : Holds a (alias a)
    in_mapping : (ps : Pairs) → PairsHold a ps → Holds a (mapping ps)
    in_sequence : (ns : Nodes) → NodesHold a ns → Holds a (sequence ns)
    in_document : (ns : Nodes) → NodesHold a ns → Holds a (document ns)

  pub data NodesHold (a : ℕ) : Nodes → Type 0 where
    at_node : (n : Node) (ns : Nodes) → Holds a n → NodesHold a (cons n ns)
    after_node : (n : Node) (ns : Nodes) → NodesHold a ns → NodesHold a (cons n ns)

  pub data PairsHold (a : ℕ) : Pairs → Type 0 where
    at_value : (k : Text) (v : Node) (ps : Pairs) → Holds a v → PairsHold a (pair k v ps)
    after_value : (k : Text) (v : Node) (ps : Pairs) → PairsHold a ps → PairsHold a (pair k v ps)

module _ (a : ℕ) (deref : ℕ → Option (List Text)) (stuck : deref a ≡ none) where
  mutual
    unfolding node_images

    node_stuck : {n : Node} → Holds a n → node_images deref n ≡ none
    node_stuck at_alias = stuck
    node_stuck (in_mapping ps h) = pairs_stuck h
    node_stuck (in_sequence ns h) = nodes_stuck h
    node_stuck (in_document ns h) = nodes_stuck h

    nodes_stuck : {ns : Nodes} → NodesHold a ns → nodes_images deref ns ≡ none
    nodes_stuck (at_node n ns h) = rw (node_stuck h) refl
    nodes_stuck (after_node n ns h) = rw (nodes_stuck h) (both-none _)

    pairs_stuck : {ps : Pairs} → PairsHold a ps → pairs_images deref ps ≡ none
    pairs_stuck (at_value k v ps h) = rw (node_stuck h) refl
    pairs_stuck (after_value k v ps h) = rw (pairs_stuck h) (both-none _)

alias_stuck :
    (anchors : ℕ → Node) (a : ℕ)
    → Holds a (anchors a)
    → (fuel : ℕ) → alias_images anchors fuel a ≡ none
unfolding alias_images
alias_stuck anchors a h zero = refl
alias_stuck anchors a h (suc fuel) = node_stuck a _ (alias_stuck anchors a h fuel) h

-- If the node of an anchor has an alias to that anchor in it, the walk over a node with an alias to
-- it ends with no fuel at all: nothing in the code stops it.
pub for_each_image-cyclic :
    (anchors : ℕ → Node) (a : ℕ) (n : Node)
    → Holds a (anchors a)
    → Holds a n
    → (fuel : ℕ) → for_each_image anchors fuel n ≡ none
unfolding for_each_image
for_each_image-cyclic anchors a n h k fuel = node_stuck a _ (alias_stuck anchors a h fuel) k
