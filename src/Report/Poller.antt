-- ===== src/Report/Poller.antt =====
-- internal/report/poller.go: the latest snapshot of the stored reports.
pub mod Latest
use yk_update_checker.Prelude.{List, [], ◌∷◌}
use yk_update_checker.Report.Types.{Dependency, RepositoryScan}
use yk_update_checker.Report.Store.{Store, Outcome, done, failed, list_scans, list_dependencies}

-- `Snapshot`
pub record Snapshot : Type 0 where
  pub repos : List RepositoryScan
  pub deps : List Dependency

-- What `NewPoller` stores.
abbrev pub empty_snapshot : Snapshot
empty_snapshot = record { repos = []; deps = [] }

unfoldable pub with_deps :
    Snapshot → List RepositoryScan → Outcome (List Dependency) → Snapshot × Store
with_deps current repos (done deps s) = (record { repos = repos; deps = deps }, s)
with_deps current repos (failed e s) = (current, s)

unfoldable pub with_repos : Snapshot → Outcome (List RepositoryScan) → Snapshot × Store
unfolding with_deps
with_repos current (done repos s) = with_deps current repos (list_dependencies [] s)
with_repos current (failed e s) = (current, s)

-- `load`: two reads of the backend; a failed one leaves the snapshot as it was.
unfoldable pub load : Snapshot → Store → Snapshot × Store
unfolding with_repos
load current s = with_repos current (list_scans s)

-- `Run` until its context ends: each round meets the backend as the scanners have left it.
unfoldable pub run : Snapshot → List Store → Snapshot
run current [] = current
run current (s ∷ rounds) = run (load current s).0 rounds
