-- ===== src/Extractor/Images.antt =====
-- internal/extractor/images.go: the container images of Kubernetes manifests.
pub mod Mentions
pub mod Sound
pub mod Visits
pub mod Distinct
pub mod Terminates
use yk_update_checker.Extractor.Ref.{Ref, protocol_image}
use yk_update_checker.Extractor.ImageRef.{ImageRef, parse_image_ref}
use yk_update_checker.Prelude.{
  Option, List, Bool, ℕ, not, [], none, some, ◌++◌, suc, if◌then◌else◌, true, ◌∷◌, false, ◌||◌,
  zero,
}
use yk_update_checker.Text.{Text, contains, text_eq, codes, is_nil}
use mathlib.Core.Option
use yk_update_checker.Extractor.Node.{
  Node, pairs_value, Nodes, sequence, mapping_scalar, scalar, mapping, cons, document, inner_scalar,
  mapping_value, alias, Pairs, pair, nil, end,
}

abbrev pub container_list_keys : List Text
container_list_keys = codes "containers" ∷ codes "initContainers" ∷ codes "ephemeralContainers" ∷ []

-- The image of one entry of a container list, if it has one.
image_of_value : Option Node → List Text
image_of_value (some (scalar (c ∷ s))) = (c ∷ s) ∷ []
image_of_value _ = []

unfoldable pub container_image : Node → List Text
unfolding pairs_value image_of_value
container_image (mapping ps) = image_of_value (mapping_value (mapping ps) (codes "image"))
container_image _ = []

unfoldable pub container_images : Nodes → List Text
unfolding container_image
container_images nil = []
container_images (cons n ns) = container_image n ++ container_images ns

-- The containers under one key.
unfoldable pub listed_images : Text → Node → List Text
unfolding contains container_images
listed_images key (sequence ns) =
    if contains container_list_keys key then container_images ns else []
listed_images key _ = []

abbrev pub both : Option (List Text) → Option (List Text) → Option (List Text)
both (some xs) (some ys) = some (xs ++ ys)
both _ _ = none

-- `forEachImage`: the images in the order in which `fn` is called with them. `deref` is the same
-- call on the node of an anchor.
unfoldable mutual
  unfolding listed_images

  pub node_images : (ℕ → Option (List Text)) → Node → Option (List Text)
  node_images deref (scalar s) = some []
  node_images deref (mapping ps) = pairs_images deref ps
  node_images deref (sequence ns) = nodes_images deref ns
  node_images deref (document ns) = nodes_images deref ns
  node_images deref (alias a) = deref a

  pub nodes_images : (ℕ → Option (List Text)) → Nodes → Option (List Text)
  nodes_images deref nil = some []
  nodes_images deref (cons n ns) = both (node_images deref n) (nodes_images deref ns)

  pub pairs_images : (ℕ → Option (List Text)) → Pairs → Option (List Text)
  pairs_images deref end = some []
  pairs_images deref (pair k v ps) =
      both (both (some (listed_images k v)) (node_images deref v)) (pairs_images deref ps)

-- Aliases are followed `fuel` deep; `none` is a call that has not returned by then.
unfoldable pub alias_images : (ℕ → Node) → ℕ → ℕ → Option (List Text)
unfolding node_images
alias_images anchors zero a = none
alias_images anchors (suc fuel) a = node_images (alias_images anchors fuel) (anchors a)

unfoldable pub for_each_image : (ℕ → Node) → ℕ → Node → Option (List Text)
unfolding alias_images
for_each_image anchors fuel n = node_images (alias_images anchors fuel) n

-- `isWorkloadKind`
unfoldable pub is_workload_kind : Text → Bool
unfolding text_eq
is_workload_kind kind = not (
    is_nil kind
    || text_eq kind (codes "CustomResourceDefinition")
    || text_eq kind (codes "APIVersion"))

unfoldable pub workload_of : Node → Text
unfolding pairs_value
workload_of root =
    let kind = mapping_scalar root (codes "kind") in
    let name = inner_scalar (mapping_value root (codes "metadata")) (codes "name") in
    if is_nil name then kind else kind ++ codes "/" ++ name

abbrev image_key : Text → ImageRef → Text
image_key workload r =
    workload ++ codes "|" ++ r.repository ++ codes "|" ++ r.tag ++ codes "|" ++ r.digest

abbrev image_ref_of : Text → Text → ImageRef → Ref
image_ref_of workload kind r = record {
  chart = workload;
  name = r.name;
  protocol = protocol_image;
  repository = r.repository;
  current_version = r.tag;
  digest = r.digest;
  kind = kind;
  final_stage = false;
}

-- The callback of `Extract`, with the keys seen and the references so far.
unfoldable pub add_image :
    Text → Text → List Text × List Ref → Option ImageRef → List Text × List Ref
unfolding contains
add_image workload kind (seen, refs) none = (seen, refs)
add_image workload kind (seen, refs) (some r) =
    if contains seen (image_key workload r)
    then (seen, refs)
    else (image_key workload r ∷ seen, refs ++ image_ref_of workload kind r ∷ [])

unfoldable pub add_images : Text → Text → List Text × List Ref → List Text → List Text × List Ref
unfolding add_image parse_image_ref
add_images workload kind acc [] = acc
add_images workload kind acc (image ∷ images) =
    add_images workload kind (add_image workload kind acc (parse_image_ref image)) images

abbrev is_mapping : Node → Bool
is_mapping (mapping ps) = true
is_mapping _ = false

-- One document of the loop of `Extract`.
unfoldable pub document_images :
    (ℕ → Node) → ℕ → List Text × List Ref → Node → Option (List Text × List Ref)
unfolding is_workload_kind workload_of for_each_image add_images pairs_value
document_images anchors fuel acc root =
    let kind = mapping_scalar root (codes "kind") in
    if not (is_mapping root) || not (is_workload_kind kind)
    then some acc
    else Option.map (add_images (workload_of root) kind acc) (for_each_image anchors fuel root)

unfoldable pub extract_from :
    (ℕ → Node) → ℕ → List Text × List Ref → List Node → Option (List Text × List Ref)
unfolding document_images
extract_from anchors fuel acc [] = some acc
extract_from anchors fuel acc (root ∷ roots) =
    Option.bind (document_images anchors fuel acc root)
      (λ acc'. extract_from anchors fuel acc' roots)

-- `Images.Extract` on the documents of a file
unfoldable pub extract_images : (ℕ → Node) → ℕ → List Node → Option (List Ref)
unfolding extract_from
extract_images anchors fuel roots =
    Option.map (λ acc. acc.1) (extract_from anchors fuel ([], []) roots)
