-- ===== src/Gitsync/Env.antt =====
-- internal/gitsync/gitsync.go: the environment of a git command, with the credentials in it.
use yk_update_checker.Prelude.{
  ◌⊎◌, ◌++◌, ◌∷◌, List, ℕ, if◌then◌else◌, length, inr, [], inl, suc, Option, ◌==◌, not, ◌||◌, some,
  none,
}
use yk_update_checker.Errkind.{Failure, wrapped, wrap, host_key}
use yk_update_checker.Text.{Text, codes, text_eq, is_nil, trim, is_space}
use yk_update_checker.Text.Base64.{base64}
use yk_update_checker.Text.Decimal.{itoa}
use yk_update_checker.Config.Repos.{Repo, RepoAuth}

-- What the operating system answers. A file that cannot be read is `none`; `stat` and `mkdir_all`
-- answer with their error.
pub record System : Type 0 where
  pub environ : List Text
  pub read_file : Text → Option Text
  pub stat : Text → Option Failure
  pub mkdir_all : Text → Option Failure

pub data Built : Type 0 where
  refused : Failure → Built
  built : List Text → Built

-- `shellQuote`: each quote in the text closes the quotes, stands escaped, and opens them again.
unfoldable pub quote_rest : Text → Text
quote_rest [] = b'\'' ∷ []
quote_rest (c ∷ s) =
    let rest = quote_rest s in if c == b'\'' then codes "'\\''" ++ rest else c ∷ rest

unfoldable pub shell_quote : Text → Text
unfolding quote_rest
shell_quote s = b'\'' ∷ quote_rest s

abbrev pub ssh_base : RepoAuth → Text
ssh_base a =
    codes "ssh -i "
    ++ (shell_quote a.ssh_key_path ++ codes " -o IdentitiesOnly=yes -o BatchMode=yes")

-- `sshCommand`
module _ (sys : System) where
  unfoldable pub ssh_command : RepoAuth → Failure ⊎ Text
  unfolding shell_quote
  ssh_command a =
      if is_nil a.known_hosts_file
      then inr (ssh_base a ++ codes " -o StrictHostKeyChecking=accept-new")
      else elim (sys.stat a.known_hosts_file) [
        | some e ↦ inl (
            wrap host_key (
              wrapped
                (codes
                  "auth.known_hosts_file is set but cannot be read, refusing to clone without host key verification: ")
                e))
        | none ↦ inr (
            ssh_base a
            ++ (codes " -o UserKnownHostsFile="
                ++ (shell_quote a.known_hosts_file ++ codes " -o StrictHostKeyChecking=yes")))
      ]

  -- `readCredFile`
  unfoldable pub read_cred_file : Text → Text
  read_cred_file path = elim (sys.read_file path) [
    | none ↦ []
    | some contents ↦ trim is_space contents
  ]

  -- `secret`
  unfoldable pub secret : Text → Text → Text
  secret inline file = if not (is_nil inline) || is_nil file then inline else read_cred_file file

-- `authHeader`
unfoldable pub auth_header : Text → Text → Text → Text × Text
auth_header url user pass = (
  codes "http." ++ (url ++ codes ".extraheader"),
  codes "Authorization: Basic " ++ base64 (user ++ b':' ∷ pass),
)

-- `gitConfig`: the count, then each pair under its index.
unfoldable pub config_pairs : ℕ → List (Text × Text) → List Text
config_pairs i [] = []
config_pairs i ((key, value) ∷ pairs) =
    (codes "GIT_CONFIG_KEY_" ++ (itoa i ++ b'=' ∷ key))
    ∷ (codes "GIT_CONFIG_VALUE_" ++ (itoa i ++ b'=' ∷ value))
    ∷ config_pairs (suc i) pairs

unfoldable pub git_config : List (Text × Text) → List Text
unfolding config_pairs
git_config pairs = (codes "GIT_CONFIG_COUNT=" ++ itoa (length pairs)) ∷ config_pairs 0 pairs

abbrev pub hardening : List Text
hardening =
    codes "GIT_TERMINAL_PROMPT=0"
    ∷ codes "GIT_CONFIG_NOSYSTEM=1"
    ∷ codes "GIT_CONFIG_GLOBAL=/dev/null"
    ∷ codes "GIT_ALLOW_PROTOCOL=https:ssh:file:http:git"
    ∷ []

abbrev pub die_on_credentials : Text × Text
die_on_credentials = (codes "transfer.credentialsInUrl", codes "die")

-- `gitEnv`
unfoldable pub git_env : System → List (Text × Text) → List Text
git_env sys pairs = sys.environ ++ (hardening ++ git_config (die_on_credentials ∷ pairs))

-- The pairs that carry a secret, if there is one.
abbrev pub header_pairs : Text → Text → Text → List (Text × Text)
header_pairs url user pass = if is_nil pass then [] else auth_header url user pass ∷ []

unfoldable pub ssh_env : List Text → Failure ⊎ Text → Built
ssh_env env (inl e) = refused e
ssh_env env (inr cmd) = built (env ++ (codes "GIT_SSH_COMMAND=" ++ cmd) ∷ [])

-- `authEnv`
unfoldable pub auth_env : System → Repo → Built
unfolding ssh_env text_eq
auth_env sys repo =
    if text_eq repo.auth.type_ (codes "ssh")
    then (if is_nil repo.auth.ssh_key_path
        then built (git_env sys [])
        else ssh_env (git_env sys []) (ssh_command sys repo.auth))
    else if text_eq repo.auth.type_ (codes "token")
    then built (
        git_env sys
          (header_pairs repo.url (codes "git") (secret sys repo.auth.token repo.auth.token_file)))
    else if text_eq repo.auth.type_ (codes "basic")
    then built (
        git_env sys (
          header_pairs repo.url repo.auth.username
            (secret sys repo.auth.password repo.auth.password_file)))
    else built (git_env sys [])
