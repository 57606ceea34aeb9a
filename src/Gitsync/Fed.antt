-- ===== src/Gitsync/Fed.antt =====
-- What git reads from the environment that is built for it, credentials included.
use yk_update_checker.Text.Base64.{decode64, base64, decode64-base64}
use mathlib.Core.Path.{subst}
use mathlib.Core.List.{append-nil}
use yk_update_checker.Prelude.{
  none, some, inl, inr, true, false, List, ◌≡◌, ◌++◌, ◌∷◌, [], ◌∙◌, refl, sym, ap, Bool, ◌≢◌,
  if◌then◌else◌, ◌&&◌, not, ◌⊎◌, Bool-cases, All, ◌<◌,
}
use yk_update_checker.Errkind.{Failure}
use yk_update_checker.Text.{Text, codes, text_eq, is_nil, text_eq_iff}
use yk_update_checker.Text.Cut.{cut}
use yk_update_checker.Config.Repos.{Repo}
use yk_update_checker.Gitsync.Hardened.{IsHardened, git_env-IsHardened, read_config-git_env}
use yk_update_checker.Gitsync.Env.{
  System, Built, refused, built, die_on_credentials, git_env, ssh_command, ssh_env, secret,
  header_pairs, auth_env, auth_header,
}
use yk_update_checker.Gitsync.Shell.{shell_words, ssh_arguments, ssh_command-IsReadBack, IsReadBack}
use yk_update_checker.Gitsync.Getenv.{getenv, getenv-append, read_config, value_of}

-- The pairs that carry credentials, by the type of access.
unfoldable pub credentials : System → Repo → List (Text × Text)
unfolding text_eq
credentials sys repo =
    let a = repo.auth in
    if text_eq a.type_ (codes "token")
    then header_pairs repo.url (codes "git") (secret sys a.token a.token_file)
    else if text_eq a.type_ (codes "basic")
    then header_pairs repo.url a.username (secret sys a.password a.password_file)
    else []

-- The ssh command, where a key is configured.
abbrev pub IsKeyed : Repo → List Text → Type 0
IsKeyed repo env =
    (cmd : Text) × (getenv (codes "GIT_SSH_COMMAND") env ≡ some cmd)
    × (shell_words cmd ≡ some (ssh_arguments repo.auth))

abbrev pub uses_key : Repo → Bool
uses_key repo = text_eq repo.auth.type_ (codes "ssh") && not (is_nil repo.auth.ssh_key_path)

-- A refusal, of a host key file that cannot be read; or an environment from which git reads these.
abbrev pub IsFed : System → Repo → Built → Type 0
IsFed sys repo (refused e) =
    (uses_key repo ≡ true)
    × (is_nil repo.auth.known_hosts_file ≡ false)
    × (sys.stat repo.auth.known_hosts_file ≢ none)
IsFed sys repo (built env) =
    IsHardened env
    × (read_config env ≡ some (die_on_credentials ∷ credentials sys repo))
    × ((uses_key repo ≡ false) ⊎ IsKeyed repo env)

ssh_credentials :
    (sys : System) (repo : Repo)
    → text_eq repo.auth.type_ (codes "ssh") ≡ true
    → credentials sys repo ≡ []
unfolding credentials text_eq
ssh_credentials sys repo e = rw (is_token, is_basic) refl
  where
    same_type : repo.auth.type_ ≡ codes "ssh"
    same_type = (text_eq_iff repo.auth.type_ (codes "ssh")).0 e

    is_token : text_eq repo.auth.type_ (codes "token") ≡ false
    is_token = subst (λ t. text_eq t (codes "token") ≡ false) (sym same_type) refl

    is_basic : text_eq repo.auth.type_ (codes "basic") ≡ false
    is_basic = subst (λ t. text_eq t (codes "basic") ≡ false) (sym same_type) refl

token_credentials :
    (sys : System) (repo : Repo)
    → text_eq repo.auth.type_ (codes "token") ≡ true
    → header_pairs repo.url (codes "git") (secret sys repo.auth.token repo.auth.token_file)
      ≡ credentials sys repo
unfolding credentials
token_credentials sys repo t = rw t refl

basic_credentials :
    (sys : System) (repo : Repo)
    → text_eq repo.auth.type_ (codes "token") ≡ false
    → text_eq repo.auth.type_ (codes "basic") ≡ true
    → header_pairs repo.url repo.auth.username
        (secret sys repo.auth.password repo.auth.password_file)
      ≡ credentials sys repo
unfolding credentials
basic_credentials sys repo t b = rw (t, b) refl

no_credentials :
    (sys : System) (repo : Repo)
    → text_eq repo.auth.type_ (codes "token") ≡ false
    → text_eq repo.auth.type_ (codes "basic") ≡ false
    → [] ≡ credentials sys repo
unfolding credentials
no_credentials sys repo t b = rw (t, b) refl

plain_env :
    (sys : System) (repo : Repo) (pairs : List (Text × Text))
    → pairs ≡ credentials sys repo
    → uses_key repo ≡ false
    → IsFed sys repo (built (git_env sys pairs))
unfolding getenv
plain_env sys repo pairs e h =
    let no_tail = append-nil (git_env sys pairs) in
    (
      subst IsHardened no_tail
          (git_env-IsHardened sys pairs [] (refl, refl, refl, refl, refl, λ j. (refl, refl))),
      subst (λ env. read_config env ≡ some (die_on_credentials ∷ credentials sys repo)) no_tail
          (read_config-git_env sys pairs [] (refl, refl, refl, refl, refl, λ j. (refl, refl))
            ∙ ap (λ ps. some (die_on_credentials ∷ ps)) e),
      inl h,
    )

keyed_env :
    (sys : System) (repo : Repo) (r : Failure ⊎ Text)
    → credentials sys repo ≡ []
    → uses_key repo ≡ true
    → IsReadBack sys repo.auth r
    → IsFed sys repo (ssh_env (git_env sys []) r)
unfolding ssh_env getenv value_of text_eq cut
keyed_env sys repo (inl e) c u h = (u, h.0, h.1)
keyed_env sys repo (inr cmd) c u h =
    let tail = (codes "GIT_SSH_COMMAND=" ++ cmd) ∷ [] in
    (
      git_env-IsHardened sys [] tail (refl, refl, refl, refl, refl, λ j. (refl, refl)),
      read_config-git_env sys [] tail (refl, refl, refl, refl, refl, λ j. (refl, refl))
          ∙ ap (λ ps. some (die_on_credentials ∷ ps)) (sym c),
      inr (cmd, getenv-append (codes "GIT_SSH_COMMAND") (git_env sys []) tail, h.0),
    )

-- Whatever the environment.
pub auth_env-IsFed : (sys : System) (repo : Repo) → IsFed sys repo (auth_env sys repo)
unfolding auth_env
auth_env-IsFed sys repo = elim (Bool-cases (text_eq repo.auth.type_ (codes "ssh"))) [
  | inl e ↦ rw e (elim (Bool-cases (is_nil repo.auth.ssh_key_path)) [
    | inl n ↦ rw n (plain_env sys repo [] (sym (ssh_credentials sys repo e)) (rw (n, e) refl))
    | inr n ↦ rw n (
        keyed_env sys repo (ssh_command sys repo.auth) (ssh_credentials sys repo e) (rw (e, n) refl)
          (ssh_command-IsReadBack sys repo.auth))
  ])
  | inr e ↦ rw e (elim (Bool-cases (text_eq repo.auth.type_ (codes "token"))) [
    | inl t ↦ rw t (plain_env sys repo _ (token_credentials sys repo t) (rw e refl))
    | inr t ↦ rw t (elim (Bool-cases (text_eq repo.auth.type_ (codes "basic"))) [
      | inl b ↦ rw b (plain_env sys repo _ (basic_credentials sys repo t b) (rw e refl))
      | inr b ↦ rw b (plain_env sys repo _ (no_credentials sys repo t b) (rw e refl))
    ])
  ])
]

-- A server reads the user and the secret out of the header.
auth_header-decode64 :
    (url user pass : Text)
    → All (λ c. c < 256) (user ++ b':' ∷ pass)
    → (header : Text) × ((auth_header url user pass).1 ≡ codes "Authorization: Basic " ++ header)
      × (decode64 header ≡ some (user ++ b':' ∷ pass))
unfolding auth_header
auth_header-decode64 url user pass h =
    (base64 (user ++ b':' ∷ pass), refl, decode64-base64 (user ++ b':' ∷ pass) h)
