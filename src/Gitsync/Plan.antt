-- ===== src/Gitsync/Plan.antt =====
-- The commands that `Sync` runs, and in which order.
use yk_update_checker.Prelude.{
  none, some, inl, inr, [], List, ◌≡◌, Option-cases, ◌∷◌, ◌++◌, ◌⊎◌, ◌≢◌, refl,
}
use yk_update_checker.Errkind.{Failure}
use yk_update_checker.Text.{Text, codes}
use yk_update_checker.Config.Repos.{Repo}
use yk_update_checker.Gitsync.Env.{System, Built, refused, built, auth_env, git_env}
use yk_update_checker.Gitsync.{
  Command, Answer, Done, error_of, git, and_then, then_if_ok, clone, fetch, sync, sync_with,
  clone_args, set_url_args, fetch_args, reset_args, sync_at, clone_into,
}

abbrev command : List Text → List Text → Command
command env args = record { env = env; args = args }

-- The commands for a directory that has a repository; only the one that asks the server has the
-- credentials in its environment.
abbrev pub update_plan : System → Repo → Text → List Text → List Command
update_plan sys repo dest env =
    command (git_env sys []) (set_url_args repo.url dest)
    ∷ command env (fetch_args dest)
    ∷ command (git_env sys []) (reset_args dest)
    ∷ []

abbrev pub clone_plan : Repo → Text → List Text → List Command
clone_plan repo dest env = command env (clone_args repo.url dest) ∷ []

module _ (answer : List Command → Command → Answer) where
  -- The commands of a plan run one after the other, each told what ran before, and none after the
  -- first that fails; the error is that of the one that fails.
  pub data IsRun : List Command → List Command → Done → Type 0 where
    finished : (log : List Command) → IsRun log [] (record { error = none; log = log })
    stopped :
        (log : List Command) (c : Command) (later : List Command) (e : Failure)
        → error_of c (answer log c) ≡ some e
        → IsRun log (c ∷ later) (record { error = some e; log = log ++ c ∷ [] })
    went_on :
        (log : List Command) (c : Command) (later : List Command) (d : Done)
        → error_of c (answer log c) ≡ none
        → IsRun (log ++ c ∷ []) later d
        → IsRun log (c ∷ later) d

  -- One command in front of a plan.
  and_then-IsRun :
      (env args : List Text) (log later : List Command) (next : List Command → Done)
      → ((log : List Command) → IsRun log later (next log))
      → IsRun log (command env args ∷ later) (and_then answer (git answer env args log) next)
  unfolding and_then then_if_ok git
  and_then-IsRun env args log later next h =
      elim (Option-cases (error_of (command env args) (answer log (command env args)))) [
        | inl e ↦ rw e (went_on log (command env args) later _ e (h (log ++ command env args ∷ [])))
        | inr (f, e) ↦ rw e (stopped log (command env args) later f e)
      ]

  git-IsRun :
      (env args : List Text) (log : List Command)
      → IsRun log (command env args ∷ []) (git answer env args log)
  unfolding git
  git-IsRun env args log =
      elim (Option-cases (error_of (command env args) (answer log (command env args)))) [
        | inl e ↦
            rw e (went_on log (command env args) [] _ e (finished (log ++ command env args ∷ [])))
        | inr (f, e) ↦ rw e (stopped log (command env args) [] f e)
      ]

  -- Nothing runs without the credentials' environment, or where the directory cannot be made.
  abbrev pub IsSynced : System → Repo → Text → Built → Done → Type 0
  IsSynced sys repo dest (refused e) d = d ≡ record { error = some e; log = [] }
  IsSynced sys repo dest (built env) d =
      ((sys.stat (dest ++ codes "/.git") ≡ none) × IsRun [] (update_plan sys repo dest env) d)
      ⊎ ((sys.stat (dest ++ codes "/.git") ≢ none)
          × (sys.mkdir_all dest ≡ none)
          × IsRun [] (clone_plan repo dest env) d)
      ⊎ ((sys.stat (dest ++ codes "/.git") ≢ none)
          × (e : Failure) × (sys.mkdir_all dest ≡ some e)
          × (d ≡ record { error = some e; log = [] }))

  sync_with-IsSynced :
      (sys : System) (repo : Repo) (dest : Text) (b : Built)
      → IsSynced sys repo dest b (sync_with answer sys repo dest b)
  unfolding sync_with sync_at fetch clone clone_into
  sync_with-IsSynced sys repo dest (refused e) = refl
  sync_with-IsSynced sys repo dest (built env) =
      elim (Option-cases (sys.stat (dest ++ codes "/.git"))) [
        | inl e ↦ rw e (
            inl (
              refl,
              and_then-IsRun (git_env sys []) (set_url_args repo.url dest) [] _ _ (λ log.
                  and_then-IsRun env (fetch_args dest) log _ _
                    (λ log. git-IsRun (git_env sys []) (reset_args dest) log)),
            ))
        | inr (f, e) ↦ rw e (
            inr (elim (Option-cases (sys.mkdir_all dest)) [
              | inl m ↦ rw m (inl (λ n. cc (n), refl, git-IsRun env (clone_args repo.url dest) []))
              | inr (g, m) ↦ rw m (inr (λ n. cc (n), g, refl, refl))
            ]))
      ]

  -- A repository is brought up to date by its plan.
  pub sync-IsSynced :
      (sys : System) (repo : Repo) (dest : Text)
      → IsSynced sys repo dest (auth_env sys repo) (sync answer sys repo dest)
  unfolding sync
  sync-IsSynced sys repo dest = sync_with-IsSynced sys repo dest (auth_env sys repo)
