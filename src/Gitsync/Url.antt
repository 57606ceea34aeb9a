-- ===== src/Gitsync/Url.antt =====
-- internal/gitsync/gitsync.go: `RedactURL`.
use yk_update_checker.Prelude.{Option, ◌++◌, some, [], ◌∷◌, none}
use yk_update_checker.Text.{Text, codes}
use yk_update_checker.Text.Cut.{cut, cut_last}
use yk_update_checker.Config.Location.{cut_infix}

-- The slash stays with the tail.
unfoldable pub tail_of : Option Text → Text
tail_of none = []
tail_of (some t) = b'/' ∷ t

unfoldable pub after_at : Text → Option (Text × Text) → Text
after_at authority none = authority
after_at authority (some (user, host)) = host

unfoldable pub redact_rest : Text → Text
unfolding tail_of after_at
redact_rest rest =
    let (authority, tail) = cut b'/' rest in
    after_at authority (cut_last b'@' authority) ++ tail_of tail

unfoldable pub redact_parts : Text → Option (Text × Text) → Text
redact_parts u none = redact_rest u
redact_parts u (some (scheme, rest)) = scheme ++ (codes "://" ++ redact_rest rest)

unfoldable pub redact_url : Text → Text
unfolding redact_parts redact_rest
redact_url u = redact_parts u (cut_infix (codes "://") u)
