-- ===== src/Registry/Bump.antt =====
-- internal/registry/scope.go: the size of the bump between two image tags. (The semantic versions
-- of charts are another library's.)
pub mod Laws
use yk_update_checker.Prelude.{ℕ, Option, if◌then◌else◌, not, ◌==◌, ◌||◌, ltb, none, length, some}
use yk_update_checker.Text.{Text, text_eq, is_nil}
use yk_update_checker.Registry.Tag.{TagShape, TagKind, semver, kind_eq, classify_tag}
use yk_update_checker.Registry.Order.{group, comparable_shapes}

pub data Bump : Type 0 where
  major minor patch unknown : Bump

-- `bumpOf`
unfoldable pub bump_of : ℕ → ℕ → ℕ → ℕ → Bump
bump_of latest_major cur_major latest_minor cur_minor =
    if not (latest_major == cur_major)
    then Bump.major
    else if not (latest_minor == cur_minor)
    then Bump.minor
    else Bump.patch

bump_of_shapes : TagShape → TagShape → Bump
unfolding comparable_shapes bump_of
bump_of_shapes cur cand =
    if not (comparable_shapes cur cand) || not (kind_eq cur.kind semver) || ltb (length cur.core) 2
    then Bump.unknown
    else bump_of (group cand.core 0) (group cur.core 0) (group cand.core 1) (group cur.core 1)

-- `ImageScope`; `none` is the empty text.
unfoldable pub image_scope : Text → Text → Option Bump
unfolding text_eq bump_of_shapes
image_scope current latest =
    if is_nil latest || text_eq current latest
    then none
    else some (bump_of_shapes (classify_tag current) (classify_tag latest))
