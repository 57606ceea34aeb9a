-- ===== src/Registry/Vendor/AuthFile.antt =====
-- internal/registry/authfile.go: credentials for registries from a Docker config file. The file's
-- JSON is the library's part; Go's map of entries is a list, in the order in which a run meets them.
use yk_update_checker.Prelude.{
  none, some, [], ℕ, List, Option, if◌then◌else◌, keep, ◌∷◌, Bool, ◌||◌, ◌++◌, not, ◌==◌, ◌&&◌,
}
use yk_update_checker.Errkind.{wrapped, plain}
use yk_update_checker.Text.{Text, codes, text_eq, is_nil}
use yk_update_checker.Text.Base64.{decode64}
use yk_update_checker.Text.Cut.{cut}
use yk_update_checker.Registry.Cache.{Fetched, value, error}
use yk_update_checker.Config.Location.{cut_infix}

-- `dockerAuth`
pub record DockerAuth : Type 0 where
  pub auth : Text
  pub username : Text
  pub password : Text
  pub identity_token : Text
  pub registry_token : Text

-- `authn.AuthConfig`
pub record AuthConfig : Type 0 where
  pub username : Text
  pub password : Text
  pub identity_token : Text
  pub registry_token : Text

after_scheme : Text → Option (Text × Text) → Text
after_scheme key none = key
after_scheme key (some (scheme, rest)) = rest

-- `registryHost`; go-containerregistry calls Docker Hub "index.docker.io"
unfoldable pub registry_host : Text → Text
unfolding after_scheme cut_infix cut text_eq
registry_host key =
    let host = (cut b'/' (after_scheme key (cut_infix (codes "://") key))).0 in
    if text_eq host (codes "docker.io") || text_eq host (codes "registry-1.docker.io")
    then codes "index.docker.io"
    else host

-- `base64.StdEncoding.DecodeString`, which skips line ends
abbrev is_line_end : ℕ → Bool
is_line_end c = c == 10 || c == 13

unfoldable pub decode_string : Text → Option Text
unfolding decode64
decode_string s = decode64 (keep (λ c. not (is_line_end c)) s)

unfoldable pub or_nothing : Option Text → Text
or_nothing none = []
or_nothing (some t) = t

unfoldable pub config_of : DockerAuth → Text → Text → AuthConfig
config_of a user pass = record {
  username = user;
  password = pass;
  identity_token = a.identity_token;
  registry_token = a.registry_token;
}

-- What one entry gives.
unfoldable pub decoded_auth : Text → DockerAuth → Option Text → Fetched (Option AuthConfig)
unfolding config_of cut or_nothing
decoded_auth key a none =
    error (plain (codes "registry_auth_file: auth for " ++ (key ++ codes " is not base64")))
decoded_auth key a (some raw) =
    value (some (config_of a (cut b':' raw).0 (or_nothing (cut b':' raw).1)))

unfoldable pub entry_auth : Text → DockerAuth → Fetched (Option AuthConfig)
unfolding decoded_auth config_of
entry_auth key a =
    if not (is_nil a.auth) && is_nil a.username
    then decoded_auth key a (decode_string a.auth)
    else value (some (config_of a a.username a.password))

-- The loop over the entries; `none` is `authn.Anonymous`.
unfoldable pub find_auth : Text → List (Text × DockerAuth) → Fetched (Option AuthConfig)
find_auth host [] = value none
find_auth host ((key, a) ∷ auths) =
    if text_eq (registry_host key) host then entry_auth key a else find_auth host auths

-- `Resolve`, given the file as it is read and parsed
unfoldable pub resolve : Fetched (List (Text × DockerAuth)) → Text → Fetched (Option AuthConfig)
resolve (error e) host = error (wrapped (codes "registry_auth_file: ") e)
resolve (value auths) host = find_auth host auths

basic_of : AuthConfig → Option (Text × Text)
basic_of c = if is_nil c.username || is_nil c.password then none else some (c.username, c.password)

basic_from : Fetched (Option AuthConfig) → Option (Text × Text)
unfolding basic_of
basic_from (error e) = none
basic_from (value none) = none
basic_from (value (some c)) = basic_of c

-- `basicAuthFor`, over what the keychain resolves; `none` where the host is no registry's name
unfoldable pub basic_auth_for :
    (Text → Fetched (Option AuthConfig)) → (Text → Option Text) → Text → Option (Text × Text)
unfolding basic_from
basic_auth_for keychain new_registry host = elim (new_registry host) [
  | none ↦ none
  | some registry ↦ basic_from (keychain registry)
]
