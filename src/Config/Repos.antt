-- ===== src/Config/Repos.antt =====
-- internal/config/config.go: the checks of the configured repositories. Reading the file, with its
-- unknown keys, is the YAML library's part.
use yk_update_checker.Config.Checked.{
  Checked, refused, accepted, no_repos, checked_then, no_name, unknown_auth_type, names_collide,
  not_a_directory, auth_type_missing, unencrypted_credential, name_too_long, path_outside,
}
use yk_update_checker.Config.Location.{https, Scheme, classify_repo_url}
use yk_update_checker.Prelude.{
  Bool, ◌∷◌, ℕ, List, not, true, if◌then◌else◌, [], ◌-◌, ◌||◌, ◌&&◌, false, ◌+◌, ◌==◌, ltb, length,
}
use yk_update_checker.Text.{
  Text, split, has_prefix, span, text_eq, contains, is_letter, is_nil, codes, trim, is_digit,
  is_space,
}

pub record RepoAuth : Type 0 where
  pub type_ : Text
  pub token : Text
  pub token_file : Text
  pub username : Text
  pub password : Text
  pub password_file : Text
  pub ssh_key_path : Text
  pub known_hosts_file : Text

pub record Repo : Type 0 where
  pub name : Text
  pub url : Text
  pub path : Text
  pub auth : RepoAuth

-- `SafeName`
abbrev pub is_safe_rune : ℕ → Bool
is_safe_rune c = is_letter c || is_digit c || c == b'-' || c == b'_' || c == b'.'

unfoldable pub safe_name : Text → Text
safe_name [] = []
safe_name (c ∷ s) = (if is_safe_rune c then c else b'-') ∷ safe_name s

-- `filepath.IsLocal`: the path is relative, and no part of it leads above where it starts. `depth`
-- is how far below that the parts so far have led.
stays_below : ℕ → List Text → Bool
unfolding text_eq
stays_below depth [] = true
stays_below depth (part ∷ parts) =
    let same = stays_below depth parts in
    let up = stays_below (depth - 1) parts in
    let down = stays_below (depth + 1) parts in
    if is_nil part || text_eq part (codes ".")
    then same
    else if text_eq part (codes "..")
    then not (depth == 0) && up
    else down

unfoldable pub is_local : Text → Bool
unfolding stays_below split has_prefix
is_local path =
    not (is_nil path) && not (has_prefix path (codes "/")) && stays_below 0 (split b'/' path)

-- `RepoAuth.validate`
abbrev pub auth_types : List Text
auth_types = codes "token" ∷ codes "basic" ∷ codes "ssh" ∷ []

abbrev pub has_credentials : RepoAuth → Bool
has_credentials a = not (
    is_nil a.token
    && is_nil a.token_file
    && is_nil a.password
    && is_nil a.password_file
    && is_nil a.username
    && is_nil a.ssh_key_path)

abbrev pub is_https : Scheme → Bool
is_https https = true
is_https _ = false

-- `token` and `basic` are sent in a header.
abbrev pub sends_header : Text → Bool
sends_header t = text_eq t (codes "token") || text_eq t (codes "basic")

unfoldable pub validate_auth : RepoAuth → Scheme → Checked RepoAuth
unfolding span contains text_eq
validate_auth a scheme =
    let t = trim is_space a.type_ in
    if not (is_nil t) && not (contains auth_types t)
    then refused unknown_auth_type
    else if is_nil t && has_credentials a
    then refused auth_type_missing
    else if sends_header t && not (is_https scheme)
    then refused unencrypted_credential
    else accepted (record a { type_ = t })

abbrev pub max_repo_dir_len : ℕ
max_repo_dir_len = 100

-- The checks of one repository, but for the collision of names.
unfoldable pub check_repo : Repo → Checked Repo
unfolding safe_name has_prefix is_local classify_repo_url validate_auth
check_repo r =
    if is_nil r.name
    then refused no_name
    else if has_prefix (safe_name r.name) (codes ".")
    then refused not_a_directory
    else if ltb max_repo_dir_len (length (safe_name r.name))
    then refused name_too_long
    else if not (is_nil r.path) && not (is_local r.path)
    then refused path_outside
    else checked_then (classify_repo_url r.url) (λ scheme.
      checked_then (validate_auth r.auth scheme) (λ a. accepted (record r { auth = a })))

-- The loop of `validateRepos`, with the directories seen.
unfoldable pub check_repos : List Text → List Repo → Checked (List Repo)
unfolding check_repo contains safe_name
check_repos seen [] = accepted []
check_repos seen (r ∷ rs) =
    let dir = safe_name r.name in
    let rest = check_repos (dir ∷ seen) rs in
    checked_then (check_repo r) (λ r'.
      if contains seen dir
      then refused names_collide
      else checked_then rest (λ rs'. accepted (r' ∷ rs')))

-- `validateRepos`
unfoldable pub validate_repos : List Repo → Checked (List Repo)
unfolding check_repos
validate_repos [] = refused no_repos
validate_repos (r ∷ rs) = check_repos [] (r ∷ rs)
