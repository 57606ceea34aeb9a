-- ===== src/Registry/Vendor/Path.antt =====
-- internal/registry/vendor.go: paths of vendor requests, with Go's `url.PathEscape` and
-- `url.QueryEscape`, over the bytes of a text.
use yk_update_checker.Prelude.{
  ◌∷◌, ℕ, if◌then◌else◌, [], Bool, ◌||◌, map, ltb, ◌++◌, ◌==◌, ◌+◌, ◌-◌,
}
use Prim.Native.Nat.{◌/◌, ◌%◌}
use yk_update_checker.Text.{Text, split, join, is_letter, is_digit}

abbrev pub hex_digit : ℕ → ℕ
hex_digit n = if ltb n 10 then n + b'0' else n - 10 + b'A'

-- "%XX"
abbrev pub escaped : ℕ → Text
escaped c = b'%' ∷ hex_digit (c / 16) ∷ hex_digit (c % 16) ∷ []

-- The bytes that never need an escape.
abbrev is_unreserved : ℕ → Bool
is_unreserved c = is_letter c || is_digit c || c == b'-' || c == b'_' || c == b'.' || c == b'~'

-- The bytes that `url.PathEscape` leaves alone.
unfoldable pub is_segment_code : ℕ → Bool
is_segment_code c =
    is_unreserved c || c == b'$' || c == b'&' || c == b'+' || c == b':' || c == b'=' || c == b'@'

unfoldable pub path_escape : Text → Text
unfolding is_segment_code
path_escape [] = []
path_escape (c ∷ s) =
    let rest = path_escape s in if is_segment_code c then c ∷ rest else escaped c ++ rest

unfoldable pub query_escape : Text → Text
query_escape [] = []
query_escape (c ∷ s) =
    let rest = query_escape s in
    if is_unreserved c then c ∷ rest else if c == b' ' then b'+' ∷ rest else escaped c ++ rest

-- `escPath`: each part between slashes on its own
unfoldable pub esc_path : Text → Text
unfolding split path_escape
esc_path path = join (b'/' ∷ []) (map path_escape (split b'/' path))

-- `harborRepoPath`
unfoldable pub harbor_repo_path : Text → Text
unfolding path_escape
harbor_repo_path repo = path_escape (path_escape repo)
