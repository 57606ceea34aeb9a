-- ===== src/Extractor/Images/Sound.antt =====
-- What the walk over a document finds is mentioned in it.
use yk_update_checker.Extractor.Images.Mentions.{
  IsContainer, InNodes, Mentions, aliased, InPairs, container, item, root, first, here, there,
  later, below, container_list_keys_iff,
}
use mathlib.Core.Path.{subst}
use yk_update_checker.Text.{Text, contains, codes}
use yk_update_checker.Extractor.Images.{
  listed_images, container_image, container_images, image_of_value, node_images, both,
  container_list_keys, nodes_images, pairs_images, alias_images,
}
use yk_update_checker.Extractor.Node.{
  Node, Nodes, Pairs, sequence, cons, pair, mapping, pairs_value, alias, scalar, document, nil, end,
}
use mathlib.Core.List.Memᴰ
use yk_update_checker.Prelude.{
  ◌≡◌, Option, none, ℕ, Memᴰ, List, some, Bool-cases, ◌++◌, inl, inr, refl, ◌≢◌, [], ◌∷◌, sym, suc,
  zero,
}

pub both-split :
    (o p : Option (List Text)) (l : List Text)
    → both o p ≡ some l
    → (xs : List Text) × (ys : List Text) × (o ≡ some xs) × (p ≡ some ys) × (xs ++ ys ≡ l)
both-split (some xs) (some ys) l h = (xs, ys, refl, refl, cc h)
both-split (some xs) none l h = absurd (cc h)
both-split none p l h = absurd (cc h)

image_of_value-named :
    (o : Option Node) (image : Text)
    → Memᴰ image (image_of_value o)
    → (o ≡ some (scalar image)) × (image ≢ [])
unfolding image_of_value
image_of_value-named none image m = elim m [ ]
image_of_value-named (some (scalar [])) image m = elim m [ ]
image_of_value-named (some (scalar (c ∷ s))) image m =
    let e = Memᴰ.eq_of_singleton m in (rw e refl, λ d. cc (d, e))
image_of_value-named (some (mapping ps)) image m = elim m [ ]
image_of_value-named (some (sequence ns)) image m = elim m [ ]
image_of_value-named (some (document ns)) image m = elim m [ ]
image_of_value-named (some (alias a)) image m = elim m [ ]

container_image-IsContainer :
    (n : Node) (image : Text) → Memᴰ image (container_image n) → IsContainer image n
unfolding container_image
container_image-IsContainer (mapping ps) image m =
    let (e, g) = image_of_value-named (pairs_value (codes "image") ps) image m in
    record { entries = ps; shape = refl; named = e; given = g }
container_image-IsContainer (scalar s) image m = elim m [ ]
container_image-IsContainer (sequence ns) image m = elim m [ ]
container_image-IsContainer (document ns) image m = elim m [ ]
container_image-IsContainer (alias a) image m = elim m [ ]

container_images-IsContainer :
    (ns : Nodes) (image : Text)
    → Memᴰ image (container_images ns)
    → (n : Node) × InNodes n ns × IsContainer image n
unfolding container_images
container_images-IsContainer nil image m = elim m [ ]
container_images-IsContainer (cons n ns) image m = elim (Memᴰ.append_cases (container_image n) m) [
  | inl k ↦ (n, here ns, container_image-IsContainer n image k)
  | inr k ↦ let (j, i, c) = container_images-IsContainer ns image k in (j, there n ns i, c)
]

-- The images listed under one key of a mapping.
listed_images-Mentions :
    (anchors : ℕ → Node) (image k : Text) (v : Node) (ps : Pairs)
    → InPairs k v ps
    → Memᴰ image (listed_images k v)
    → Mentions anchors image (mapping ps)
unfolding listed_images
listed_images-Mentions anchors image k (sequence ns) ps i m =
    elim (Bool-cases (contains container_list_keys k)) [
      | inr e ↦ elim (rw e at m) [ ]
      | inl e ↦
          let (n, j, c) = container_images-IsContainer ns image (rw e at m) in
          container k n ns ps i ((container_list_keys_iff k).0 e) j c
    ]
listed_images-Mentions anchors image k (scalar s) ps i m = elim m [ ]
listed_images-Mentions anchors image k (mapping qs) ps i m = elim m [ ]
listed_images-Mentions anchors image k (document ns) ps i m = elim m [ ]
listed_images-Mentions anchors image k (alias a) ps i m = elim m [ ]

mem_of_some :
    (image : Text) (xs l : List Text)
    → ◌≡◌ {A = Option (List Text)} (some xs) (some l)
    → Memᴰ image l
    → Memᴰ image xs
mem_of_some image xs l h m = let e : l ≡ xs = cc (h) in subst (Memᴰ image) e m

module _ (anchors : ℕ → Node) (image : Text) where
  -- What a call for the node of an anchor finds is mentioned there.
  abbrev pub IsSound : (ℕ → Option (List Text)) → Type 0
  IsSound deref =
      (a : ℕ) (l : List Text) → deref a ≡ some l → Memᴰ image l → Mentions anchors image (alias a)

  mutual
    unfolding node_images

    pub node_sound :
        (deref : ℕ → Option (List Text)) (n : Node) (l : List Text)
        → IsSound deref
        → node_images deref n ≡ some l
        → Memᴰ image l
        → Mentions anchors image n
    node_sound deref (scalar s) l d h m = elim (mem_of_some image [] l h m) [ ]
    node_sound deref (mapping ps) l d h m = pairs_sound deref ps ps l d (λ k v i. i) h m
    node_sound deref (sequence ns) l d h m =
        let (n, i, k) = nodes_sound deref ns l d h m in item n ns i k
    node_sound deref (document ns) l d h m =
        let (n, i, k) = nodes_sound deref ns l d h m in root n ns i k
    node_sound deref (alias a) l d h m = d a l h m

    pub nodes_sound :
        (deref : ℕ → Option (List Text)) (ns : Nodes) (l : List Text)
        → IsSound deref
        → nodes_images deref ns ≡ some l
        → Memᴰ image l
        → (n : Node) × InNodes n ns × Mentions anchors image n
    nodes_sound deref nil l d h m = elim (mem_of_some image [] l h m) [ ]
    nodes_sound deref (cons n ns) l d h m =
        let (xs, ys, e, f, g) = both-split (node_images deref n) (nodes_images deref ns) l h in
        elim (Memᴰ.append_cases xs (subst (Memᴰ image) (sym g) m)) [
          | inl k ↦ (n, here ns, node_sound deref n xs d e k)
          | inr k ↦ let (j, i, w) = nodes_sound deref ns ys d f k in (j, there n ns i, w)
        ]

    pub pairs_sound :
        (deref : ℕ → Option (List Text)) (ps qs : Pairs) (l : List Text)
        → IsSound deref
        → ((k : Text) (v : Node) → InPairs k v ps → InPairs k v qs)
        → pairs_images deref ps ≡ some l
        → Memᴰ image l
        → Mentions anchors image (mapping qs)
    pairs_sound deref end qs l d sub h m = elim (mem_of_some image [] l h m) [ ]
    pairs_sound deref (pair k v ps) qs l d sub h m =
        let (xs, ys, e, f, g) = both-split _ (pairs_images deref ps) l h in
        let (us, vs, e₁, e₂, g₂) =
          both-split (some (listed_images k v)) (node_images deref v) xs e in
        elim (Memᴰ.append_cases xs (subst (Memᴰ image) (sym g) m)) [
          | inr t ↦ pairs_sound deref ps qs ys d (λ j w i. sub j w (later k v ps i)) f t
          | inl t ↦ elim (Memᴰ.append_cases us (subst (Memᴰ image) (sym g₂) t)) [
            | inr u ↦ below k v qs (sub k v (first ps)) (node_sound deref v vs d e₂ u)
            | inl u ↦
                listed_images-Mentions anchors image k v qs (sub k v (first ps))
                  (mem_of_some image (listed_images k v) us e₁ u)
          ]
        ]

  pub alias-IsSound : (fuel : ℕ) → IsSound (alias_images anchors fuel)
  unfolding alias_images
  alias-IsSound zero a l h m = absurd (cc h)
  alias-IsSound (suc fuel) a l h m =
      aliased a (node_sound (alias_images anchors fuel) (anchors a) l (alias-IsSound fuel) h m)
