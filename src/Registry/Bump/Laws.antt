-- ===== src/Registry/Bump/Laws.antt =====
-- The bump that is reported agrees with the scope that the tag was chosen under.
use yk_update_checker.Prelude.{◌≡◌, true, ◌≢◌, arith, some}
use yk_update_checker.Text.{Text}
use yk_update_checker.Registry.Scope.{Scope}
use yk_update_checker.Registry.Tag.{TagShape, classify_tag}
use yk_update_checker.Registry.Order.{tag_scope_ok}
use yk_update_checker.Registry.Bump.{Bump, bump_of_shapes, image_scope}

module _ (cur cand : TagShape) where
  bump_minor : tag_scope_ok cur cand Scope.minor ≡ true → bump_of_shapes cur cand ≢ Bump.major
  unfolding tag_scope_ok bump_of_shapes
  bump_minor h = ground arith

  bump_patch :
      tag_scope_ok cur cand Scope.patch ≡ true
      → (bump_of_shapes cur cand ≢ Bump.major) × (bump_of_shapes cur cand ≢ Bump.minor)
  unfolding tag_scope_ok bump_of_shapes
  bump_patch h = (λ e. ground arith, λ e. ground arith)

-- A tag within the scope "minor" is never reported as a major bump.
pub image_scope_minor :
    (current latest : Text)
    → tag_scope_ok (classify_tag current) (classify_tag latest) Scope.minor ≡ true
    → image_scope current latest ≢ some Bump.major
unfolding image_scope
image_scope_minor current latest h e =
    bump_minor (classify_tag current) (classify_tag latest) h (ground arith)

-- A tag within the scope "patch" is reported neither as a major nor as a minor bump.
pub image_scope_patch :
    (current latest : Text)
    → tag_scope_ok (classify_tag current) (classify_tag latest) Scope.patch ≡ true
    → (image_scope current latest ≢ some Bump.major)
      × (image_scope current latest ≢ some Bump.minor)
unfolding image_scope
image_scope_patch current latest h = (
  λ e. (bump_patch (classify_tag current) (classify_tag latest) h).0 (ground arith),
  λ e. (bump_patch (classify_tag current) (classify_tag latest) h).1 (ground arith),
)
