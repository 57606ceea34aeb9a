-- ===== src/Gitsync.antt =====
-- internal/gitsync/gitsync.go: `Sync`, a sequence of git commands. What git and the operating
-- system answer are parameters; a command's answer may depend on those that ran before it.
pub mod Env
pub mod Kinds
pub mod Url
pub mod Shell
pub mod Getenv
pub mod Hardened
pub mod Fed
pub mod Plan
pub mod Redact
use yk_update_checker.Prelude.{List, Option, Bool, none, ◌∷◌, ◌++◌, [], some, if◌then◌else◌}
use yk_update_checker.Errkind.{Failure, plain, wrapped, joined, wrap}
use yk_update_checker.Text.{Text, codes, text_eq, trim, is_space}
use yk_update_checker.Config.Repos.{Repo}
use yk_update_checker.Gitsync.Env.{System, Built, refused, built, auth_env, git_env}
use yk_update_checker.Gitsync.Kinds.{git_kind}

pub record Command : Type 0 where
  pub env : List Text
  pub args : List Text

-- How a command ends: `expired` when its context's deadline has passed, with what it printed.
pub data Answer : Type 0 where
  ok : Answer
  broken : (expired : Bool) → Text → Failure → Answer

-- The outcome of what has run, and the commands run, oldest first.
pub record Done : Type 0 where
  pub error : Option Failure
  pub log : List Command

third : List Text → Text
third (a ∷ b ∷ c ∷ args) = c
third _ = []

-- The subcommand that the error names.
abbrev subcommand : List Text → Text
subcommand [] = []
subcommand (a ∷ args) = if text_eq a (codes "-C") then third (a ∷ args) else a

-- The error of one command: "git %s: %w\n%s".
unfoldable pub error_of : Command → Answer → Option Failure
unfolding third
error_of c ok = none
error_of c (broken expired out e) =
    let output = trim is_space out in
    some (
      wrap (git_kind expired output)
        (joined (wrapped (codes "git " ++ (subcommand c.args ++ codes ": ")) e) (plain output)))

abbrev pub clone_args : Text → Text → List Text
clone_args url dest =
    codes "clone" ∷ codes "--depth=1" ∷ codes "--single-branch" ∷ codes "--" ∷ url ∷ dest ∷ []

abbrev pub set_url_args : Text → Text → List Text
set_url_args url dest =
    codes "-C" ∷ dest ∷ codes "remote" ∷ codes "set-url" ∷ codes "origin" ∷ codes "--" ∷ url ∷ []

abbrev pub fetch_args : Text → List Text
fetch_args dest = codes "-C" ∷ dest ∷ codes "fetch" ∷ codes "--depth=1" ∷ codes "origin" ∷ []

abbrev pub reset_args : Text → List Text
reset_args dest = codes "-C" ∷ dest ∷ codes "reset" ∷ codes "--hard" ∷ codes "FETCH_HEAD" ∷ []

module _ (answer : List Command → Command → Answer) where
  -- `git`
  unfoldable pub git : List Text → List Text → List Command → Done
  git env args log =
      let c : Command = record { env = env; args = args } in
      record { error = error_of c (answer log c); log = log ++ c ∷ [] }

  -- What runs after a command, unless it has failed.
  unfoldable pub then_if_ok : Option Failure → List Command → (List Command → Done) → Done
  then_if_ok none log next = next log
  then_if_ok (some e) log next = record { error = some e; log = log }

  unfoldable pub and_then : Done → (List Command → Done) → Done
  unfolding then_if_ok
  and_then d next = then_if_ok d.error d.log next

  module _ (sys : System) where
    -- What follows the making of the directory.
    unfoldable pub clone_into : Option Failure → Repo → Text → List Text → List Command → Done
    clone_into (some e) repo dest env log = record { error = some e; log = log }
    clone_into none repo dest env log = git env (clone_args repo.url dest) log

    unfoldable pub clone : Repo → Text → List Text → List Command → Done
    unfolding clone_into
    clone repo dest env log = clone_into (sys.mkdir_all dest) repo dest env log

    unfoldable pub fetch : Repo → Text → List Text → List Command → Done
    unfolding and_then
    fetch repo dest env log =
        and_then (git (git_env sys []) (set_url_args repo.url dest) log) (λ log.
          and_then (git env (fetch_args dest) log)
            (λ log. git (git_env sys []) (reset_args dest) log))

    -- What follows the look at the directory's ".git".
    unfoldable pub sync_at : Option Failure → Repo → Text → List Text → Done
    sync_at none repo dest env = fetch repo dest env []
    sync_at (some e) repo dest env = clone repo dest env []

    unfoldable pub sync_with : Repo → Text → Built → Done
    unfolding sync_at
    sync_with repo dest (refused e) = record { error = some e; log = [] }
    sync_with repo dest (built env) = sync_at (sys.stat (dest ++ codes "/.git")) repo dest env

    -- `Sync`
    unfoldable pub sync : Repo → Text → Done
    unfolding sync_with
    sync repo dest = sync_with repo dest (auth_env sys repo)
