-- ===== src/Config/Location.antt =====
-- internal/config/config.go: which locations of repositories are accepted.
use yk_update_checker.Config.Checked.{
  Checked, refused, unsupported_transport, no_url, invalid_location, credentials_in_url, accepted,
}
use yk_update_checker.Prelude.{
  Bool, true, Option, ℕ, ◌∷◌, [], ◌+◌, some, false, none, if◌then◌else◌, ◌==◌, take, ◌&&◌, not, ltb,
  ◌||◌,
}
use yk_update_checker.Text.{Text, to_lower, text_eq, codes, has_prefix, span, has_infix, is_nil}

-- `strings.Index`, as the texts before and after the first occurrence.
unfoldable pub after_prefix : Text → Text → Text
after_prefix [] s = s
after_prefix (p ∷ ps) [] = []
after_prefix (p ∷ ps) (c ∷ s) = after_prefix ps s

unfoldable pub in_front : ℕ → Option (Text × Text) → Option (Text × Text)
in_front c none = none
in_front c (some (s, t)) = some (c ∷ s, t)

unfoldable pub cut_infix : Text → Text → Option (Text × Text)
unfolding has_prefix after_prefix in_front
cut_infix sep [] = if is_nil sep then some ([], []) else none
cut_infix sep (c ∷ s) =
    let rest = in_front c (cut_infix sep s) in
    if has_prefix (c ∷ s) sep then some ([], after_prefix sep (c ∷ s)) else rest

-- `strings.LastIndexByte`
unfoldable pub last_index : ℕ → ℕ → Option ℕ → Text → Option ℕ
last_index b i found [] = found
last_index b i found (c ∷ s) = last_index b (i + 1) (if c == b then some i else found) s

abbrev pub last_index_of : ℕ → Text → Option ℕ
last_index_of b s = last_index b 0 none s

-- `userinfo`
pub record Login : Type 0 where
  pub user : Text
  pub pass : Text

unfoldable pub cut_after_at : Text → Option ℕ → Option ℕ → Text
cut_after_at authority none at = authority
cut_after_at authority (some k) none = take k authority
cut_after_at authority (some k) (some a) = if ltb a k then take k authority else authority

abbrev pub separator : Text
separator = codes "://"

-- The part that may name a host: a location of the form "host:path" has its path cut off.
unfoldable pub authority_from : Text → Option (Text × Text) → Text
unfolding span last_index cut_after_at
authority_from u none =
    let a = (span (λ c. not (c == b'/')) u).0 in
    cut_after_at a (last_index_of b':' a) (last_index_of b'@' a)
authority_from u (some (scheme, rest)) = (span (λ c. not (c == b'/')) rest).0

unfoldable pub authority_of : Text → Text
unfolding cut_infix authority_from
authority_of u = authority_from u (cut_infix separator u)

unfoldable pub login_of : Text × Text → Login
login_of (user, []) = record { user = user; pass = [] }
login_of (user, _ ∷ pass) = record { user = user; pass = pass }

unfoldable pub login_before : Text → Option ℕ → Option Login
unfolding span login_of
login_before authority none = none
login_before authority (some at) = some (login_of (span (λ c. not (c == b':')) (take at authority)))

unfoldable pub userinfo : Text → Option Login
unfolding authority_of last_index login_before
userinfo u = login_before (authority_of u) (last_index_of b'@' (authority_of u))

pub data Scheme : Type 0 where
  https http ssh git file local : Scheme

unfoldable pub scheme_of : Text → Option Scheme
unfolding text_eq
scheme_of s =
    if text_eq s (codes "https")
    then some https
    else if text_eq s (codes "http")
    then some http
    else if text_eq s (codes "ssh")
    then some ssh
    else if text_eq s (codes "git")
    then some git
    else if text_eq s (codes "file")
    then some file
    else none

abbrev pub is_http : Scheme → Bool
is_http https = true
is_http http = true
is_http _ = false

unfoldable pub scheme_from : Text → Option (Text × Text) → Option Scheme
unfolding scheme_of to_lower has_prefix has_infix
scheme_from u (some (scheme, rest)) = scheme_of (to_lower scheme)
scheme_from u none =
    if has_infix u (codes ":") && not (has_prefix u (codes "/")) && not (has_prefix u (codes "."))
    then some ssh
    else some local

unfoldable pub scheme_used : Text → Option Scheme
unfolding cut_infix scheme_from
scheme_used u = scheme_from u (cut_infix separator u)

unfoldable pub carries_credentials : Scheme → Option Login → Bool
carries_credentials scheme none = false
carries_credentials scheme (some l) = not (is_nil l.pass) || is_http scheme

unfoldable pub without_login : Text → Option Scheme → Checked Scheme
unfolding carries_credentials userinfo
without_login u none = refused unsupported_transport
without_login u (some scheme) =
    if carries_credentials scheme (userinfo u) then refused credentials_in_url else accepted scheme

-- `classifyRepoURL`
unfoldable pub classify_repo_url : Text → Checked Scheme
unfolding scheme_used without_login has_prefix has_infix
classify_repo_url u =
    if is_nil u
    then refused no_url
    else if has_prefix u (codes "-") || has_infix u (codes "::")
    then refused invalid_location
    else without_login u (scheme_used u)
