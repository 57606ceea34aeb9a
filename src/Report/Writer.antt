-- ===== src/Report/Writer.antt =====
-- internal/report/writer.go: recording the outcome of a scan. The clock is an argument, `now`, and
-- the hash behind the names of objects a parameter. The text of the refusal of a report that another
-- release wrote is shortened.
pub mod Follow
pub mod Atomic
pub mod Recorded
pub mod Pruned
use yk_update_checker.Text.Decimal.{itoa}
use yk_update_checker.Prelude.{
  some, if◌then◌else◌, [], Bool, List, Option, ◌+◌, ℕ, map, keep, none, true, take, false, ltb, ◌∷◌,
  min, ◌||◌, not, length, ◌&&◌, ◌++◌,
}
use yk_update_checker.Prelude.Int.{ℤ, pos_part}
use yk_update_checker.Errkind.{Failure, plain, wrap, kind_of, message, too_large, unsupported}
use yk_update_checker.Text.{Text, codes, text_eq, contains, is_nil}
use yk_update_checker.Named.{find}
use yk_update_checker.Report.Types.{
  ScanResult, Labels, no_labels, DepStatus, Dependency, succeeded, failed as failed_phase, unset,
  ErrorInfo, Counts, no_counts, Run, RepoStatus, RepositoryScan, Time, Status-discrete,
  repository_scan_name, dependency_name, repo_id,
}
use yk_update_checker.Report.Store.{
  M, ◌>>=◌, ◌>>◌, return, fail, list_scans, put_scan, delete_scan, list_dependencies,
  put_dependency, delete_dependency, scan_name, dep_name, or_empty,
}

abbrev pub max_dependencies : ℕ
max_dependencies = 2000

pub record Writer : Type 0 where
  pub history : ℤ
  pub instance_ : Text

-- `foreignOwner`: the release that wrote the labels, or the empty text for this writer's own
unfoldable pub foreign_owner : Writer → Labels → Text
unfolding text_eq
foreign_owner w l = if text_eq (or_empty l.instance_) w.instance_ then [] else or_empty l.instance_

abbrev pub is_own : Writer → Labels → Bool
is_own w l = is_nil (foreign_owner w l)

-- `labels`
unfoldable pub with_instance : Writer → Labels → Labels
with_instance w l = if is_nil w.instance_ then l else record l { instance_ = some w.instance_ }

-- `same`: equal but for the time of the check
abbrev pub checked_like : DepStatus → DepStatus → DepStatus
checked_like prev d = record prev {
  result = record (prev.result) { checked_at = d.result.checked_at };
}

unfoldable pub same : Dependency → Dependency → Bool
same prev d =
    elim (Status-discrete (prev.labels, checked_like prev.status d.status) (d.labels, d.status)) [
      | yes _ ↦ true
      | no _ ↦ false
    ]

-- `prev` is what is stored under the reference's name, if anything.
abbrev earlier : Option Dependency → (Dependency → Option Time) → Time → Option Time
earlier none field now = some now
earlier (some prev) field now = elim (field prev) [ none ↦ some now | some t ↦ some t ]

digest_moved : Option Dependency → ScanResult → Bool
digest_moved none r = false
digest_moved (some prev) r =
    let old = prev.status.result.image_digest in
    not (is_nil old) && not (is_nil r.image_digest) && not (text_eq old r.image_digest)

seen_version : Option Dependency → Text → Option Dependency
seen_version none version = none
seen_version (some prev) version =
    if text_eq prev.status.result.latest_version version then some prev else none

unfoldable pub next_status : Option Dependency → ScanResult → Time → DepStatus
unfolding digest_moved seen_version text_eq
next_status prev r now = record {
  result = record r { digest_changed = if digest_moved prev r then true else r.digest_changed };
  outdated_since =
      if r.update_available then earlier prev (λ d. d.status.outdated_since) now else none;
  latest_seen_at =
      if is_nil r.latest_version
      then none
      else earlier (seen_version prev r.latest_version) (λ d. d.status.latest_seen_at) now;
}

unfoldable pub count_result : Counts → ScanResult → Counts
count_result c r = record {
  checked = c.checked + 1;
  outdated = if r.update_available then c.outdated + 1 else c.outdated;
  failed_ = if is_nil r.check_error then c.failed_ else c.failed_ + 1;
}

unfoldable pub unchanged : Option Dependency → Dependency → Bool
unfolding same
unchanged none d = false
unchanged (some prev) d = same prev d

too_many : ℕ → Text
unfolding itoa
too_many n =
    itoa n
    ++ codes " references, more than the "
    ++ itoa max_dependencies
    ++ codes " a repository may store"

-- A scan with too many references is a failed one.
unfoldable pub effective_error : List ScanResult → Option Failure → Option Failure
unfolding too_many
effective_error results (some e) = some e
effective_error results none =
    if ltb max_dependencies (length results)
    then some (wrap too_large (plain (too_many (length results))))
    else none

module _ (short_hash : Text → Text) (w : Writer) where
  -- `next`, and the labels that `dependencies` gives it
  unfoldable pub next : Text → List Dependency → Time → ScanResult → Dependency
  unfolding find next_status dependency_name with_instance
  next id old now r =
      let n = dependency_name short_hash r in
      record {
        name = n;
        labels = with_instance w (record {
          repo_id = some id;
          dep_type = some r.type_;
          outdated = some r.update_available;
          instance_ = none;
        });
        status = next_status (find dep_name n old) r now;
      }

  -- The loop over the results: what is counted, and the names seen.
  unfoldable pub write_all :
      Text → List Dependency → Time → Counts → List Text → List ScanResult → M (Counts × List Text)
  unfolding next unchanged put_dependency count_result
  write_all id old now counts seen [] = return (counts, seen)
  write_all id old now counts seen (r ∷ results) =
      let d = next id old now r in
      let rest = write_all id old now (count_result counts r) (d.name ∷ seen) results in
      if unchanged (find dep_name d.name old) d then rest else put_dependency d >> rest

  -- The loop over what was stored. (Go walks a map here, in any order.)
  unfoldable pub delete_unseen : List Text → List Dependency → M (Unit {0})
  unfolding contains delete_dependency
  delete_unseen seen [] = return tt
  delete_unseen seen (d ∷ old) =
      let rest = delete_unseen seen old in
      if contains seen d.name then rest else delete_dependency d.name >> rest

  unfoldable pub dependencies : Text → List ScanResult → Time → M Counts
  unfolding list_dependencies foreign_owner write_all delete_unseen
  dependencies repo results now = do
    stored ← list_dependencies (repo_id short_hash repo)
    let old = keep (λ d. is_own w d.labels) stored
    written ← write_all (repo_id short_hash repo) old now no_counts [] results
    delete_unseen written.1 old
    return written.0

  abbrev pub new_scan : Text → RepositoryScan
  new_scan name = record {
    name = name;
    labels = no_labels;
    status = record {
      repo = [];
      phase = unset;
      last_scan_time = 0;
      last_success_time = none;
      error = none;
      counts = no_counts;
      history = [];
    };
  }

  owned_scan : Text → Option RepositoryScan → M RepositoryScan
  unfolding foreign_owner
  owned_scan name none = return (new_scan name)
  owned_scan name (some rs) =
      if is_own w rs.labels
      then return rs
      else fail (wrap unsupported (plain (codes "install one release per namespace")))

  -- `repoScan`
  unfoldable pub repo_scan : Text → M RepositoryScan
  unfolding list_scans find owned_scan repository_scan_name
  repo_scan repo = do
    all_ ← list_scans
    let name = repository_scan_name short_hash repo
    owned_scan name (find scan_name name all_)

  abbrev info_of : Failure → ErrorInfo
  info_of e = record { kind = kind_of e; message = message e }

  abbrev push_run : RepoStatus → Run → List Run
  push_run st run = take (min (length st.history + 1) (pos_part w.history)) (run ∷ st.history)

  failed_status : Text → Time → Failure → RepoStatus → RepoStatus
  failed_status repo now e st = record st {
    repo = repo;
    phase = failed_phase;
    last_scan_time = now;
    error = some (info_of e);
    history = push_run st (record {
      time = now;
      phase = failed_phase;
      counts = st.counts;
      error_kind = some (kind_of e);
    });
  }

  succeeded_status : Text → Time → Counts → RepoStatus → RepoStatus
  succeeded_status repo now counts st = record st {
    repo = repo;
    phase = succeeded;
    last_scan_time = now;
    last_success_time = some now;
    error = none;
    counts = counts;
    history =
        push_run st (record { time = now; phase = succeeded; counts = counts; error_kind = none });
  }

  new_status : Text → List ScanResult → Time → Option Failure → RepoStatus → M RepoStatus
  unfolding failed_status succeeded_status dependencies
  new_status repo results now (some e) st = return (failed_status repo now e st)
  new_status repo results now none st = do
    counts ← dependencies repo results now
    return (succeeded_status repo now counts st)

  -- `Repo`
  unfoldable pub record_repo : Text → List ScanResult → Option Failure → Time → M (Unit {0})
  unfolding repo_scan effective_error new_status with_instance put_scan
  record_repo repo results scan_err now = do
    rs ← repo_scan repo
    st ← new_status repo results now (effective_error results scan_err) rs.status
    put_scan (record rs { labels = with_instance w no_labels; status = st })

  -- `Prune`
  unfoldable pub delete_all : List Dependency → M (Unit {0})
  unfolding delete_dependency
  delete_all [] = return tt
  delete_all (d ∷ deps) = let rest = delete_all deps in delete_dependency d.name >> rest

  unfoldable pub prune_scans : List Text → List RepositoryScan → M (Unit {0})
  unfolding list_dependencies delete_scan delete_all foreign_owner contains
  prune_scans keep_names [] = return tt
  prune_scans keep_names (rs ∷ scans) =
      let rest = prune_scans keep_names scans in
      let pruned = list_dependencies (repo_id short_hash rs.status.repo) >>= λ deps.
      delete_all deps >> (delete_scan rs.name >> rest) in
      if contains keep_names rs.name || not (is_own w rs.labels) then rest else pruned

  unfoldable pub prune : List Text → M (Unit {0})
  unfolding list_scans prune_scans repository_scan_name
  prune repos = do all_ ← list_scans; prune_scans (map (repository_scan_name short_hash) repos) all_
