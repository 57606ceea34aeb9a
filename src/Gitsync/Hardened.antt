-- ===== src/Gitsync/Hardened.antt =====
-- What git reads from an environment that begins with the process's own, whatever that holds.
use mathlib.Core.List.{append_assoc}
use yk_update_checker.Prelude.{
  none, some, false, List, ℕ, ◌≡◌, ◌++◌, length, ◌∷◌, [], ◌∙◌, refl, sym, ap,
}
use yk_update_checker.Text.{Text, codes, text_eq}
use yk_update_checker.Text.Cut.{cut}
use yk_update_checker.Text.Decimal.{itoa, digits_value-itoa}
use yk_update_checker.Gitsync.Env.{
  System, hardening, die_on_credentials, git_config, config_pairs, git_env,
}
use yk_update_checker.Gitsync.Getenv.{
  getenv, getenv-append, getenv-pair, getenv-other, read_config, read_pairs-lem, IsForeign,
  key_name, value_name, value_of, read_config-count, read_pairs,
}

-- The entries in front of the pairs.
abbrev front_of : System → List (Text × Text) → List Text
front_of sys pairs =
    sys.environ ++ (hardening ++ (codes "GIT_CONFIG_COUNT=" ++ itoa (length pairs)) ∷ [])

git_env-parts :
    (sys : System) (pairs : List (Text × Text)) (tail : List Text)
    → git_env sys pairs ++ tail
      ≡ front_of sys (die_on_credentials ∷ pairs)
        ++ (config_pairs 0 (die_on_credentials ∷ pairs) ++ tail)
unfolding git_env git_config
git_env-parts sys pairs tail =
    append_assoc sys.environ (hardening ++ git_config (die_on_credentials ∷ pairs)) tail
    ∙ sym (append_assoc sys.environ _ (config_pairs 0 (die_on_credentials ∷ pairs) ++ tail))

-- A variable that the program sets itself.
getenv-own :
    (sys : System) (pairs : List (Text × Text)) (tail : List Text) (name v : Text)
    → ((j : ℕ) → text_eq (key_name j) name ≡ false)
    → ((j : ℕ) → text_eq (value_name j) name ≡ false)
    → getenv name tail ≡ none
    → getenv name (
        hardening ++ (codes "GIT_CONFIG_COUNT=" ++ itoa (length (die_on_credentials ∷ pairs))) ∷ [])
      ≡ some v
    → getenv name (git_env sys pairs ++ tail) ≡ some v
getenv-own sys pairs tail name v h k t o =
    ap (getenv name) (git_env-parts sys pairs tail)
    ∙ getenv-pair name (front_of sys (die_on_credentials ∷ pairs)) 0 (die_on_credentials ∷ pairs)
        tail t
    ∙ rw
        (
          getenv-other name 0 (die_on_credentials ∷ pairs) (λ j l. h j) (λ j l. k j),
          getenv-append name sys.environ (
              hardening
              ++ (codes "GIT_CONFIG_COUNT=" ++ itoa (length (die_on_credentials ∷ pairs))) ∷ []),
          o,
        )
        refl

-- Git asks for nothing, reads no other configuration, and uses only these transports.
abbrev pub IsHardened : List Text → Type 0
IsHardened env =
    (getenv (codes "GIT_TERMINAL_PROMPT") env ≡ some (codes "0"))
    × (getenv (codes "GIT_CONFIG_NOSYSTEM") env ≡ some (codes "1"))
    × (getenv (codes "GIT_CONFIG_GLOBAL") env ≡ some (codes "/dev/null"))
    × (getenv (codes "GIT_ALLOW_PROTOCOL") env ≡ some (codes "https:ssh:file:http:git"))

-- Entries that set none of the program's variables.
abbrev pub IsApartFrom : List Text → Type 0
IsApartFrom tail =
    (getenv (codes "GIT_TERMINAL_PROMPT") tail ≡ none)
    × (getenv (codes "GIT_CONFIG_NOSYSTEM") tail ≡ none)
    × (getenv (codes "GIT_CONFIG_GLOBAL") tail ≡ none)
    × (getenv (codes "GIT_ALLOW_PROTOCOL") tail ≡ none)
    × (getenv (codes "GIT_CONFIG_COUNT") tail ≡ none)
    × IsForeign tail

pub git_env-IsHardened :
    (sys : System) (pairs : List (Text × Text)) (tail : List Text)
    → IsApartFrom tail
    → IsHardened (git_env sys pairs ++ tail)
unfolding text_eq getenv value_of cut
git_env-IsHardened sys pairs tail (a, b, c, d, e, f) = (
  getenv-own sys pairs tail (codes "GIT_TERMINAL_PROMPT") (codes "0") (λ j. refl) (λ j. refl) a
      refl,
  getenv-own sys pairs tail (codes "GIT_CONFIG_NOSYSTEM") (codes "1") (λ j. refl) (λ j. refl) b
      refl,
  getenv-own sys pairs tail (codes "GIT_CONFIG_GLOBAL") (codes "/dev/null") (λ j. refl) (λ j. refl)
      c refl,
  getenv-own sys pairs tail (codes "GIT_ALLOW_PROTOCOL") (codes "https:ssh:file:http:git")
      (λ j. refl) (λ j. refl) d refl,
)

getenv-count :
    (sys : System) (pairs : List (Text × Text)) (tail : List Text)
    → IsApartFrom tail
    → getenv (codes "GIT_CONFIG_COUNT") (git_env sys pairs ++ tail)
      ≡ some (itoa (length (die_on_credentials ∷ pairs)))
unfolding text_eq getenv value_of cut
getenv-count sys pairs tail (a, b, c, d, e, f) =
    getenv-own sys pairs tail (codes "GIT_CONFIG_COUNT") _ (λ j. refl) (λ j. refl) e refl

-- The pairs come back, behind the one that refuses credentials in URLs.
pub read_config-git_env :
    (sys : System) (pairs : List (Text × Text)) (tail : List Text)
    → IsApartFrom tail
    → read_config (git_env sys pairs ++ tail) ≡ some (die_on_credentials ∷ pairs)
read_config-git_env sys pairs tail h =
    read_config-count (git_env sys pairs ++ tail) _ _ (getenv-count sys pairs tail h)
      (digits_value-itoa (length (die_on_credentials ∷ pairs)))
    ∙ ap (λ env. read_pairs env 0 (length (die_on_credentials ∷ pairs)))
        (git_env-parts sys pairs tail)
    ∙ read_pairs-lem (front_of sys (die_on_credentials ∷ pairs)) 0 (die_on_credentials ∷ pairs) tail
        h.5
