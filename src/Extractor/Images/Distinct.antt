-- ===== src/Extractor/Images/Distinct.antt =====
-- No reference of a file is extracted twice.
use mathlib.Core.List.{map-append}
use mathlib.Core.Path.{subst}
use yk_update_checker.Extractor.Node.{Node, mapping_scalar}
use yk_update_checker.Text.Distinct.{IsDistinct, IsDistinct-append, contains-append}
use yk_update_checker.Extractor.ImageRef.{ImageRef, parse_image_ref}
use yk_update_checker.Extractor.Ref.{Ref}
use yk_update_checker.Extractor.Images.{
  extract_images, document_images, add_images, extract_from, add_image, image_key, is_mapping,
  image_ref_of, is_workload_kind, workload_of, for_each_image,
}
use yk_update_checker.Prelude.{
  Option, List, ℕ, ◌≡◌, map, ◌∷◌, ◌++◌, some, [], none, Bool-cases, refl, not, inl, ◌||◌, inr, sym,
  ◌∙◌, arith,
}
use mathlib.Core.Option
use yk_update_checker.Text.{Text, codes, contains}

-- What tells the references of a file apart.
abbrev pub ref_key : Ref → Text
ref_key r =
    r.chart ++ codes "|" ++ r.repository ++ codes "|" ++ r.current_version ++ codes "|" ++ r.digest

-- The references so far are distinct, and the set of seen keys is theirs.
record IsSeen (acc : List Text × List Ref) : Type 0 where
  distinct : IsDistinct (map ref_key acc.1)
  same : (t : Text) → contains acc.0 t ≡ contains (map ref_key acc.1) t

map-append_one :
    (l : List Ref) (r : Ref) → map ref_key (l ++ r ∷ []) ≡ map ref_key l ++ ref_key r ∷ []
map-append_one l r = map-append ref_key l (r ∷ [])

contains-seen :
    (xs ys : List Text) (k t : Text)
    → contains xs t ≡ contains ys t
    → contains (k ∷ xs) t ≡ contains (ys ++ k ∷ []) t
unfolding contains
contains-seen xs ys k t h = ground (arith, contains-append ys k t, h)

add_image-IsSeen :
    (workload kind : Text) (acc : List Text × List Ref) (o : Option ImageRef)
    → IsSeen acc
    → IsSeen (add_image workload kind acc o)
unfolding add_image
add_image-IsSeen workload kind (seen, refs) none s = s
add_image-IsSeen workload kind (seen, refs) (some r) s =
    elim (Bool-cases (contains seen (image_key workload r))) [
      | inl e ↦ rw e s
      | inr e ↦ rw e (record {
        distinct =
            rw (map-append_one refs (image_ref_of workload kind r))
              (IsDistinct-append (map ref_key refs) _ s.distinct (sym (s.same _) ∙ e));
        same = λ t.
            rw (map-append_one refs (image_ref_of workload kind r))
              (contains-seen seen (map ref_key refs) (image_key workload r) t (s.same t));
      })
    ]

add_images-IsSeen :
    (workload kind : Text) (images : List Text) (acc : List Text × List Ref)
    → IsSeen acc
    → IsSeen (add_images workload kind acc images)
unfolding add_images
add_images-IsSeen workload kind [] acc s = s
add_images-IsSeen workload kind (image ∷ images) acc s =
    add_images-IsSeen workload kind images _
      (add_image-IsSeen workload kind acc (parse_image_ref image) s)

map-some :
    {A B : Type 0} (f : A → B) (o : Option A) (b : B)
    → Option.map f o ≡ some b
    → (a : A) × (o ≡ some a) × (f a ≡ b)
map-some f none b h = absurd (cc h)
map-some f (some a) b h = (a, refl, cc h)

document_images-IsSeen :
    (anchors : ℕ → Node) (fuel : ℕ) (acc acc' : List Text × List Ref) (root : Node)
    → IsSeen acc
    → document_images anchors fuel acc root ≡ some acc'
    → IsSeen acc'
unfolding document_images
document_images-IsSeen anchors fuel acc acc' root s h =
    elim (Bool-cases
      (not (is_mapping root) || not (is_workload_kind (mapping_scalar root (codes "kind"))))) [
        | inl e ↦ let same : acc ≡ acc' = cc (rw e at h) in subst IsSeen same s
        | inr e ↦
            let (images, f, g) =
              map-some (add_images (workload_of root) (mapping_scalar root (codes "kind")) acc)
                (for_each_image anchors fuel root) acc' (rw e at h) in
            subst IsSeen g (add_images-IsSeen (workload_of root) _ images acc s)
      ]

extract_from-IsSeen :
    (anchors : ℕ → Node) (fuel : ℕ) (roots : List Node) (acc acc' : List Text × List Ref)
    → IsSeen acc
    → extract_from anchors fuel acc roots ≡ some acc'
    → IsSeen acc'
unfolding extract_from
extract_from-IsSeen anchors fuel [] acc acc' s h =
    let same : acc ≡ acc' = cc h in subst IsSeen same s
extract_from-IsSeen anchors fuel (root ∷ roots) acc acc' s h =
    let (mid, e, k) = (Option.bind-eq-some_iff (document_images anchors fuel acc root) _).0 h in
    extract_from-IsSeen anchors fuel roots mid acc'
      (document_images-IsSeen anchors fuel acc mid root s e) k

-- No two references of a file agree in the workload, the repository, the tag and the digest. Two
-- documents with the same kind and name count as one workload.
pub extract_images-IsDistinct :
    (anchors : ℕ → Node) (fuel : ℕ) (roots : List Node) (refs : List Ref)
    → extract_images anchors fuel roots ≡ some refs
    → IsDistinct (map ref_key refs)
unfolding extract_images
extract_images-IsDistinct anchors fuel roots refs h =
    let (acc, e, f) = map-some (λ (acc : List Text × List Ref). acc.1) _ refs h in
    let s =
      extract_from-IsSeen anchors fuel roots ([], []) acc
        (record { distinct = tt; same = λ t. refl }) e in
    subst (λ l. IsDistinct (map ref_key l)) f s.distinct
