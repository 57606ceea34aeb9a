-- ===== src/Scan/Run.antt =====
-- internal/scan/runner.go: the outcome of a scan over the repositories, on what each of them gives in
-- the order in which they finish.
pub mod Account
use yk_update_checker.Errkind.{Failure, Kind, plain, wrapped, joined, wrap, timeout}
use yk_update_checker.Prelude.{
  none, some, List, ◌++◌, [], Bool, Option, ◌∷◌, ℕ, if◌then◌else◌, length, ◌==◌,
}
use yk_update_checker.Registry.Cache.{Fetched, value, error}
use yk_update_checker.Report.Types.{ScanResult}
use yk_update_checker.Text.{Text, codes}

-- `RepoError`, with `Error` and `Unwrap`
pub record RepoError : Type 0 where
  pub repo : Text
  pub err : Failure

abbrev pub repo_failure : RepoError → Failure
repo_failure e = wrapped (codes "repo " ++ e.repo ++ codes ": ") e.err

-- A repository that has finished: what `scanRepo` returned, and whether the context was done by then.
pub record Finished : Type 0 where
  pub repo : Text
  pub outcome : Fetched (List ScanResult)
  pub interrupted : Bool

-- The shared `results` and `repoErrs`.
pub record Collected : Type 0 where
  pub results : List ScanResult
  pub errors : List RepoError

abbrev pub nothing_collected : Collected
nothing_collected = record { results = []; errors = [] }

-- `err == nil` and `err = hookErr`: the hook's error counts where the scan had none.
abbrev pub after_hook : Fetched (List ScanResult) → Option Failure → Fetched (List ScanResult)
after_hook (error e) hook = error e
after_hook (value rs) none = value rs
after_hook (value rs) (some e) = error e

abbrev pub collect_outcome : Collected → Text → Fetched (List ScanResult) → Collected
collect_outcome c repo (error e) = record {
  results = c.results;
  errors = c.errors ++ record { repo = repo; err = e } ∷ [];
}
collect_outcome c repo (value rs) = record { results = c.results ++ rs; errors = c.errors }

-- `errors.Join`
abbrev pub join_errors : List RepoError → Failure
join_errors [] = plain []
join_errors (e ∷ []) = repo_failure e
join_errors (e ∷ f ∷ es) = joined (repo_failure e) (join_errors (f ∷ es))

abbrev pub conclude : ℕ → Option Failure → Collected → Fetched Collected
conclude repos (some ctx_err) c = error (wrapped (codes "scan interrupted: ") ctx_err)
conclude repos none c =
    if length c.errors == repos
    then error (wrapped (codes "all repos failed to sync: ") (join_errors c.errors))
    else value c

-- `OnRepo` is a parameter: its error, if any.
module _ (on_repo : Text → Fetched (List ScanResult) → Option Failure) where
  -- The function that `Run` calls for each repository.
  unfoldable pub finish_repo : Collected → Finished → Collected
  finish_repo c f =
      if f.interrupted
      then c
      else collect_outcome c f.repo (after_hook f.outcome (on_repo f.repo f.outcome))

  unfoldable pub collect_all : Collected → List Finished → Collected
  unfolding finish_repo
  collect_all c [] = c
  collect_all c (f ∷ fs) = collect_all (finish_repo c f) fs

  -- `Run` without a scan timeout, after the workspace is set up: `ctx_err` is `ctx.Err()` at the end.
  unfoldable pub run : ℕ → Option Failure → List Finished → Fetched Collected
  unfolding collect_all
  run repos ctx_err finished = conclude repos ctx_err (collect_all nothing_collected finished)
