-- ===== src/Gitsync/Kinds.antt =====
-- internal/gitsync/gitsync.go: the kind of failure of a git command.
use yk_update_checker.Prelude.{List, Bool, ◌∷◌, if◌then◌else◌, [], any}
use yk_update_checker.Errkind.{
  Kind, host_key, auth, rate_limited, server_error, not_found, timeout, unreachable, unsupported,
  other,
}
use yk_update_checker.Text.{Text, codes, has_infix}

-- `gitOutputKinds`
abbrev pub git_output_kinds : List (Kind × List Text)
git_output_kinds =
    (
      host_key,
      codes "Host key verification failed"
          ∷ codes "REMOTE HOST IDENTIFICATION HAS CHANGED"
          ∷ codes "host key is known for"
          ∷ codes "Host key for"
          ∷ [],
    )
    ∷ (
      auth,
      codes "Authentication failed"
          ∷ codes "could not read Username"
          ∷ codes "could not read Password"
          ∷ codes "terminal prompts disabled"
          ∷ codes "Permission denied (publickey"
          ∷ codes "Access denied"
          ∷ codes "returned error: 401"
          ∷ codes "returned error: 403"
          ∷ codes "Invalid username or password"
          ∷ [],
    )
    ∷ (rate_limited, codes "returned error: 429" ∷ [])
    ∷ (server_error, codes "returned error: 50" ∷ [])
    ∷ (
      not_found,
      codes "returned error: 404"
          ∷ codes "not found"
          ∷ codes "does not appear to be a git repository"
          ∷ codes "does not exist"
          ∷ [],
    )
    ∷ (timeout, codes "Connection timed out" ∷ codes "Operation timed out" ∷ [])
    ∷ (
      unreachable,
      codes "Could not resolve host"
          ∷ codes "Could not resolve hostname"
          ∷ codes "Connection refused"
          ∷ codes "Failed to connect"
          ∷ codes "Network is unreachable"
          ∷ codes "No route to host"
          ∷ codes "SSL certificate problem"
          ∷ codes "Connection reset"
          ∷ [],
    )
    ∷ (unsupported, codes "not allowed" ∷ codes "uses plaintext credentials" ∷ [])
    ∷ []

unfoldable pub first_kind : Text → List (Kind × List Text) → Kind
first_kind output [] = other
first_kind output ((k, patterns) ∷ kinds) =
    let rest = first_kind output kinds in if any (has_infix output) patterns then k else rest

-- `gitKind`
unfoldable pub git_kind : Bool → Text → Kind
git_kind expired output = if expired then timeout else first_kind output git_output_kinds
