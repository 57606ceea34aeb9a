-- ===== src/Extractor/ImageRef.antt =====
-- internal/extractor/images.go: container image references, `repository[:tag][@digest]`.
pub mod Laws
use yk_update_checker.Registry.Tag.{has_code}
use yk_update_checker.Text.Cut.{cut, cut_last}
use yk_update_checker.Prelude.{Option, Bool, [], ◌≡◌, if◌then◌else◌, ◌||◌, ◌++◌, some, none, refl}
use yk_update_checker.Text.{Text, has_infix, codes, span, text_eq, trim, is_nil, is_space}

-- `imageRef`
pub record ImageRef : Type 0 where
  pub name : Text
  pub repository : Text
  pub tag : Text
  pub digest : Text

-- `canonicalRepository`
abbrev names_host : Text → Bool
names_host first = has_code b'.' first || has_code b':' first || text_eq first (codes "localhost")

unfoldable pub canonical_repository : Text → Text
unfolding cut text_eq
canonical_repository s =
    if names_host (cut b'/' s).0
    then s
    else if has_code b'/' s
    then codes "index.docker.io/" ++ s
    else codes "index.docker.io/library/" ++ s

-- A reference that a template or a build argument completes.
unfoldable pub has_placeholder : Text → Bool
unfolding has_infix
has_placeholder s = has_infix s (codes "${") || has_infix s (codes "{{") || has_infix s (codes "$(")

abbrev or_nil : Option Text → Text
or_nil none = []
or_nil (some s) = s

-- The tag is what follows the last colon, if no slash does.
unfoldable pub cut_tag : Text → Option (Text × Text) → Text × Text
cut_tag s none = (s, [])
cut_tag s (some (front, tag)) = if has_code b'/' tag then (s, []) else (front, tag)

unfoldable pub with_name : Text × Text → Text → Option ImageRef
unfolding canonical_repository
with_name (name, tag) digest =
    if is_nil name
    then none
    else some
        (record { name = name; repository = canonical_repository name; tag = tag; digest = digest })

-- `parseImageRef`, on the trimmed text
unfoldable pub split_image_ref : Text → Option ImageRef
unfolding cut cut_last cut_tag with_name
split_image_ref s =
    let (front, digest) = cut b'@' s in
    with_name (cut_tag front (cut_last b':' front)) (or_nil digest)

unfoldable pub parse_image_ref : Text → Option ImageRef
unfolding span has_placeholder split_image_ref
parse_image_ref text =
    let s = trim is_space text in if is_nil s || has_placeholder s then none else split_image_ref s

image_ref_tests :
    (parse_image_ref (codes "ghcr.io:443/a/b:1.2@sha256:00")
      ≡ some (record {
        name = codes "ghcr.io:443/a/b";
        repository = codes "ghcr.io:443/a/b";
        tag = codes "1.2";
        digest = codes "sha256:00";
      }))
    × (parse_image_ref (codes "localhost:5000/a")
        ≡ some (record {
          name = codes "localhost:5000/a";
          repository = codes "localhost:5000/a";
          tag = [];
          digest = [];
        }))
    × (parse_image_ref (codes "a:${TAG}") ≡ none)
    × (canonical_repository (codes "alpine") ≡ codes "index.docker.io/library/alpine")
unfolding parse_image_ref
image_ref_tests = (refl, refl, refl, refl)
