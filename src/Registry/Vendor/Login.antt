-- ===== src/Registry/Vendor/Login.antt =====
-- The login that a Docker config file gives is the one it was made of.
use yk_update_checker.Prelude.{[], List, ◌≡◌, All, false, ◌++◌, ◌∷◌}
use yk_update_checker.Text.{Text, text_eq}
use yk_update_checker.Text.Base64.{base64}
use yk_update_checker.Registry.Vendor.AuthFile.{DockerAuth, registry_host}

-- Another host's entries.
abbrev pub IsOther : Text → List (Text × DockerAuth) → Type 0
IsOther host auths = All (λ (e : Text × DockerAuth). text_eq (registry_host e.0) host ≡ false) auths

-- An entry as `docker login` writes it: the login encoded, in one field.
abbrev pub encoded : Text → Text → DockerAuth
encoded user pass = record {
  auth = base64 (user ++ b':' ∷ pass);
  username = [];
  password = [];
  identity_token = [];
  registry_token = [];
}
