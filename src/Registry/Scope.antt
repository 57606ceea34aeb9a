-- ===== src/Registry/Scope.antt =====
-- internal/registry/scope.go: the scope of eligible updates, and the size of a bump.
use yk_update_checker.Prelude.{if◌then◌else◌}
use yk_update_checker.Text.{Text, codes, text_eq}

-- `Scope`, and `ParseScope`, which falls back to `all`.
pub data Scope : Type 0 where
  all major minor patch : Scope

unfoldable pub parse_scope : Text → Scope
unfolding text_eq
parse_scope s =
    if text_eq s (codes "all")
    then Scope.all
    else if text_eq s (codes "major")
    then Scope.major
    else if text_eq s (codes "minor")
    then Scope.minor
    else if text_eq s (codes "patch")
    then Scope.patch
    else Scope.all
