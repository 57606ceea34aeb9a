-- ===== src/Extractor/Paths.antt =====
-- Which files are read: internal/extractor/images.go (IsYAML), dockerfile.go (IsDockerfile),
-- extractor.go (IsScannable), over Go's `filepath` on slashes.
use yk_update_checker.Text.Cut.{cut_last, has_suffix}
use yk_update_checker.Prelude.{
  Bool, List, Option, [], ◌||◌, ◌≡◌, some, ◌∷◌, none, true, false, any, ◌==◌, ◌++◌, refl,
  if◌then◌else◌, ◌&&◌,
}
use yk_update_checker.Text.{
  Text, codes, to_lower, span, text_eq, trim_right, has_prefix, is_nil, has_infix,
}

or_slash : Text → Text
or_slash [] = codes "/"
or_slash (c ∷ s) = c ∷ s

after_last : Text → Option (Text × Text) → Text
after_last s none = s
after_last s (some (front, back)) = back

-- `filepath.Base`
unfoldable pub base_name : Text → Text
unfolding cut_last span after_last or_slash
base_name path =
    let s = trim_right (λ c. c == b'/') path in
    if is_nil path then codes "." else or_slash (after_last s (cut_last b'/' s))

-- `filepath.Ext`: from the last dot of the last element on.
dot_and : Option (Text × Text) → Text
dot_and none = []
dot_and (some (front, back)) = b'.' ∷ back

unfoldable pub extension : Text → Text
unfolding cut_last after_last dot_and
extension path = dot_and (cut_last b'.' (after_last path (cut_last b'/' path)))

-- `IsYAML`
unfoldable pub is_yaml : Text → Bool
unfolding extension to_lower text_eq
is_yaml path =
    let e = to_lower (extension path) in text_eq e (codes ".yaml") || text_eq e (codes ".yml")

abbrev pub dockerfile_names : List Text
dockerfile_names = codes "dockerfile" ∷ codes "containerfile" ∷ []

abbrev names_build : Text → Text → Bool
names_build base name =
    text_eq base name || has_prefix base (name ++ codes ".") || has_suffix base (codes "." ++ name)

-- `IsDockerfile`, `IsScannable`
unfoldable pub is_dockerfile : Text → Bool
unfolding base_name to_lower text_eq has_prefix
is_dockerfile path = any (names_build (to_lower (base_name path))) dockerfile_names

unfoldable pub is_scannable : Text → Bool
unfolding is_yaml is_dockerfile
is_scannable path = is_yaml path || is_dockerfile path

path_tests :
    (is_dockerfile (codes "a/Dockerfile.dev") ≡ true)
    × (is_dockerfile (codes "a/web.Dockerfile") ≡ true)
    × (is_dockerfile (codes "a/Dockerfiles") ≡ false)
    × (is_yaml (codes "a.d/b.YML") ≡ true)
    × (is_scannable (codes "a.yaml/b") ≡ false)
unfolding is_scannable
path_tests = (refl, refl, refl, refl, refl)

-- `Images.Match`
unfoldable pub matches_images : Text → Text → Bool
unfolding is_yaml has_infix
matches_images path content = is_yaml path && has_infix content (codes "image:")
