-- ===== src/Tests/ExtractorTests.antt =====
-- References of manifests and build files: internal/extractor.
use yk_update_checker.Extractor.Images.Mentions.{Mentions}
use yk_update_checker.Text.Distinct.{IsDistinct}
use yk_update_checker.Extractor.Ref.{Ref}
use yk_update_checker.Prelude.{
  some, none, refl, false, arith, ℕ, ◌∷◌, [], List, Memᴰ, ◌≡◌, map, ◌↔◌, inr,
}
use yk_update_checker.Extractor.Node.{
  Node, scalar, mapping, sequence, alias, nil, cons, end, pair, pairs_value,
}
use yk_update_checker.Extractor.Images.Terminates.{
  Holds, NodeBelow, for_each_image-ends, for_each_image-cyclic, at_alias, in_mapping, at_value,
}
use yk_update_checker.Extractor.Images.{
  for_each_image, alias_images, node_images, listed_images, container_images, container_image,
  extract_images, extract_from, document_images, is_workload_kind, workload_of, add_images,
  add_image,
}
use yk_update_checker.Extractor.ImageRef.Laws.{
  IsPlain, behind, parse_image_ref-print, print_image_ref,
}
use yk_update_checker.Extractor.ImageRef.{
  ImageRef, parse_image_ref, split_image_ref, with_name, canonical_repository, cut_tag,
  has_placeholder,
}
use yk_update_checker.Extractor.Images.Visits.{for_each_image-Mentions}
use yk_update_checker.Extractor.Images.Distinct.{extract_images-IsDistinct, ref_key}
use yk_update_checker.Text.Cut.{cut, cut_last}
use yk_update_checker.Text.{Text, codes, span, text_eq, has_infix, has_prefix, contains}

runs : Unit {0}
unfolding parse_image_ref split_image_ref with_name canonical_repository cut_tag cut cut_last span
    text_eq has_infix has_prefix has_placeholder for_each_image alias_images node_images
    listed_images container_images container_image pairs_value contains extract_images extract_from
    document_images is_workload_kind workload_of add_images add_image
runs = tt

abbrev redis : ImageRef
redis = record {
  name = codes "redis";
  repository = codes "index.docker.io/library/redis";
  tag = codes "7.2";
  digest = [];
}

parse_redis : parse_image_ref (codes " redis:7.2 ") ≡ some redis
unfolding runs
parse_redis = refl

-- A name with a port and no tag.
local_image-IsPlain : IsPlain (codes "localhost:5000/a") [] (codes "sha256:00")
unfolding runs
local_image-IsPlain = record {
  named = refl;
  name_at = refl;
  tag_colon = refl;
  tag_slash = refl;
  untagged = inr (behind (codes "localhost:5000") (codes "a") refl refl);
  trimmed = refl;
  closed = refl;
}

parse_image_ref-print_example :
    parse_image_ref (print_image_ref (codes "localhost:5000/a") [] (codes "sha256:00"))
    ≡ some (record {
      name = codes "localhost:5000/a";
      repository = canonical_repository (codes "localhost:5000/a");
      tag = [];
      digest = codes "sha256:00";
    })
parse_image_ref-print_example =
    parse_image_ref-print (codes "localhost:5000/a") [] (codes "sha256:00") local_image-IsPlain

-- A pod whose containers are those of an anchor.
abbrev entry : Text → Node
entry image = mapping (pair (codes "image") (scalar image) end)

abbrev listed : Text → Node
listed image = mapping (pair (codes "containers") (sequence (cons (entry image) nil)) end)

abbrev pod : Node
pod = mapping (
    pair (codes "kind") (scalar (codes "Pod"))
      (pair (codes "spec") (alias 0) (pair (codes "other") (alias 0) end)))

abbrev anchors : ℕ → Node
anchors a = listed (codes "redis:7.2")

pod_images : for_each_image anchors 2 pod ≡ some (codes "redis:7.2" ∷ codes "redis:7.2" ∷ [])
unfolding runs
pod_images = refl

for_each_image-Mentions_example :
    Memᴰ (codes "redis:7.2") (codes "redis:7.2" ∷ codes "redis:7.2" ∷ [])
    ↔ Mentions anchors (codes "redis:7.2") pod
for_each_image-Mentions_example =
    for_each_image-Mentions anchors (codes "redis:7.2") 2 pod _ pod_images

abbrev rank : ℕ → ℕ
rank a = 0

anchors_down : (a : ℕ) → NodeBelow rank (rank a) (anchors a)
unfolding NodeBelow
anchors_down a = (((tt, tt), tt), tt)

pod_below : NodeBelow rank 1 pod
unfolding NodeBelow
pod_below = (tt, (omega arith, (omega arith, tt)))

for_each_image-ends_example : (l : List Text) × (for_each_image anchors 1 pod ≡ some l)
for_each_image-ends_example = for_each_image-ends rank anchors anchors_down 1 pod pod_below

-- An anchor whose node has an alias to itself.
abbrev endless : ℕ → Node
endless a = mapping (pair (codes "again") (alias 0) end)

endless-Holds : Holds 0 (endless 0)
endless-Holds = in_mapping _ (at_value _ _ _ at_alias)

for_each_image-cyclic_example : for_each_image endless 9 (alias 0) ≡ none
for_each_image-cyclic_example = for_each_image-cyclic endless 0 (alias 0) endless-Holds at_alias 9

abbrev pod_ref : Ref
pod_ref = record {
  name = codes "redis";
  chart = codes "Pod";
  protocol = codes "image";
  repository = codes "index.docker.io/library/redis";
  current_version = codes "7.2";
  digest = [];
  kind = codes "Pod";
  final_stage = false;
}

pod_refs : extract_images anchors 2 (pod ∷ pod ∷ []) ≡ some (pod_ref ∷ [])
unfolding runs mathlib.Core.Option.bind
pod_refs = refl

extract_images-IsDistinct_example : IsDistinct (map ref_key (pod_ref ∷ []))
extract_images-IsDistinct_example =
    extract_images-IsDistinct anchors 2 (pod ∷ pod ∷ []) (pod_ref ∷ []) pod_refs
