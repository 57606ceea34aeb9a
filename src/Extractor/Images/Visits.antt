-- ===== src/Extractor/Images/Visits.antt =====
-- The walk over a document visits the images of its containers, and no other text.
use yk_update_checker.Extractor.Images.Sound.{node_sound, both-split, alias-IsSound}
use yk_update_checker.Extractor.Images.Mentions.{
  Mentions, InNodes, InPairs, IsContainer, container, first, item, root, aliased, later, here,
  below, there, container_list_keys_iff,
}
use mathlib.Core.Path.{subst}
use yk_update_checker.Text.{Text}
use yk_update_checker.Extractor.Images.{
  listed_images, container_image, container_images, image_of_value, node_images, nodes_images,
  pairs_images, alias_images, for_each_image,
}
use yk_update_checker.Extractor.Node.{Node, Nodes, Pairs, scalar}
use mathlib.Core.List.Memᴰ
use yk_update_checker.Prelude.{
  ◌≡◌, Option, ℕ, Memᴰ, List, some, ◌++◌, refl, ◌≢◌, [], ◌∷◌, suc, ◌↔◌, zero,
}

module _ (anchors : ℕ → Node) (image : Text) where
  container_image-mem : (n : Node) → IsContainer image n → Memᴰ image (container_image n)
  unfolding container_image image_of_value
  container_image-mem n c = rw (c.shape, c.named) (mem_text image c.given)
    where
      mem_text : (s : Text) → s ≢ [] → Memᴰ s (image_of_value (some (scalar s)))
      mem_text [] ne = absurd (ne refl)
      mem_text (d ∷ s) ne = Memᴰ.head refl

  container_images-mem :
      {n : Node} {ns : Nodes}
      → InNodes n ns
      → IsContainer image n
      → Memᴰ image (container_images ns)
  unfolding container_images
  container_images-mem {n} (here ns) c = Memᴰ.append_left _ (container_image-mem n c)
  container_images-mem (there m ns i) c =
      Memᴰ.append_right (container_image m) (container_images-mem i c)

  -- A part of a walk that ends has ended, and what it finds is found.
  pairs_part :
      (deref : ℕ → Option (List Text)) {k : Text} {v : Node} {ps : Pairs} (l : List Text)
      → InPairs k v ps
      → pairs_images deref ps ≡ some l
      → (vs : List Text) × (node_images deref v ≡ some vs)
        × (Memᴰ image (listed_images k v ++ vs) → Memᴰ image l)
  unfolding node_images
  pairs_part deref {k} {v} l (first ps) h =
      let (xs, ys, e, f, g) = both-split _ (pairs_images deref ps) l h in
      let (us, vs, e₁, e₂, g₂) = both-split (some (listed_images k v)) (node_images deref v) xs e in
      let same : listed_images k v ++ vs ≡ xs = cc (e₁, g₂) in
      (vs, e₂, λ m. subst (Memᴰ image) g (Memᴰ.append_left ys (subst (Memᴰ image) same m)))
  pairs_part deref l (later j w ps i) h =
      let (xs, ys, e, f, g) = both-split _ (pairs_images deref ps) l h in
      let (vs, e₂, sub) = pairs_part deref ys i f in
      (vs, e₂, λ m. subst (Memᴰ image) g (Memᴰ.append_right xs (sub m)))

  nodes_part :
      (deref : ℕ → Option (List Text)) {n : Node} {ns : Nodes} (l : List Text)
      → InNodes n ns
      → nodes_images deref ns ≡ some l
      → (xs : List Text) × (node_images deref n ≡ some xs) × (Memᴰ image xs → Memᴰ image l)
  unfolding node_images
  nodes_part deref {n} l (here ns) h =
      let (xs, ys, e, f, g) = both-split (node_images deref n) (nodes_images deref ns) l h in
      (xs, e, λ m. subst (Memᴰ image) g (Memᴰ.append_left ys m))
  nodes_part deref l (there m ns i) h =
      let (xs, ys, e, f, g) = both-split (node_images deref m) (nodes_images deref ns) l h in
      let (us, e₂, sub) = nodes_part deref ys i f in
      (us, e₂, λ t. subst (Memᴰ image) g (Memᴰ.append_right xs (sub t)))

  node_complete :
      {n : Node}
      → Mentions anchors image n
      → (fuel : ℕ) (l : List Text) → node_images (alias_images anchors fuel) n ≡ some l
      → Memᴰ image l
  unfolding node_images alias_images listed_images
  node_complete (container k n ns ps i e j c) fuel l h =
      let (vs, f, sub) = pairs_part (alias_images anchors fuel) l i h in
      sub (Memᴰ.append_left vs (rw ((container_list_keys_iff k).1 e) (container_images-mem j c)))
  node_complete (below k v ps i w) fuel l h =
      let (vs, f, sub) = pairs_part (alias_images anchors fuel) l i h in
      sub (Memᴰ.append_right (listed_images k v) (node_complete w fuel vs f))
  node_complete (item n ns i w) fuel l h =
      let (xs, f, sub) = nodes_part (alias_images anchors fuel) l i h in
      sub (node_complete w fuel xs f)
  node_complete (root n ns i w) fuel l h =
      let (xs, f, sub) = nodes_part (alias_images anchors fuel) l i h in
      sub (node_complete w fuel xs f)
  node_complete (aliased a w) zero l h = absurd (cc h)
  node_complete (aliased a w) (suc fuel) l h = node_complete w fuel l h

  -- A walk that ends has called back with exactly the images that the document mentions: those of the
  -- entries of a list of containers, init containers or ephemeral containers of a mapping at any
  -- depth, where aliases are followed to mappings, but not from the key to the list, from the list to
  -- the entry or from the entry to its image.
  pub for_each_image-Mentions :
      (fuel : ℕ) (n : Node) (l : List Text)
      → for_each_image anchors fuel n ≡ some l
      → Memᴰ image l ↔ Mentions anchors image n
  unfolding for_each_image
  for_each_image-Mentions fuel n l h = (
    λ m.
        node_sound anchors image (alias_images anchors fuel) n l (alias-IsSound anchors image fuel)
          h m,
    λ w. node_complete w fuel l h,
  )
