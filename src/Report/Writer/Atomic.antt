-- ===== src/Report/Writer/Atomic.antt =====
-- What a repository's record leaves alone when a scan, or the writing of its report, fails.
use yk_update_checker.Prelude.{
  List, ◌∷◌, [], refl, Option, ◌≡◌, ◌≢◌, some, none, ◌⊎◌, ◌<◌, length, inl, keep, inr, arith,
}
use yk_update_checker.Text.{Text}
use yk_update_checker.Errkind.{Failure}
use yk_update_checker.Report.Types.{
  Time, ScanResult, RepoStatus, Counts, Dependency, RepositoryScan,
}
use yk_update_checker.Report.Store.{Store, failed, list_scans}
use yk_update_checker.Report.Store.Keeps.{
  Keeps, KeepsOnFailure, store_of, scans_of, deps_of, bind-Keeps, bind-KeepsOnFailure,
  list_scans-Keeps_scans, list_scans-Keeps_deps, list_dependencies-Keeps_scans,
  put_dependency-Keeps_scans, delete_dependency-Keeps_scans, put_scan-Keeps_deps,
  put_scan-KeepsOnFailure, if-Keeps, then-Keeps, return-Keeps, fail-Keeps,
}
use yk_update_checker.Report.Writer.{
  Writer, next, write_all, delete_unseen, dependencies, owned_scan, repo_scan, effective_error,
  new_status, record_repo, count_result, is_own, max_dependencies,
}

effective_error-ne-none :
    (results : List ScanResult) (o : Option Failure)
    → (o ≢ none) ⊎ (max_dependencies < length results)
    → effective_error results o ≢ none
unfolding effective_error
effective_error-ne-none results none (inl h) = absurd (h refl)
effective_error-ne-none results none (inr h) = ground arith
effective_error-ne-none results (some e) h = cc

module _ (short_hash : Text → Text) (w : Writer) where
  write_all-Keeps_scans :
      (id : Text) (old : List Dependency) (now : Time) (c : Counts) (seen : List Text)
      (results : List ScanResult)
      → Keeps scans_of (write_all short_hash w id old now c seen results)
  unfolding write_all
  write_all-Keeps_scans id old now c seen [] = return-Keeps scans_of _
  write_all-Keeps_scans id old now c seen (r ∷ results) =
      let rest =
        write_all-Keeps_scans id old now (count_result c r)
          ((next short_hash w id old now r).name ∷ seen) results in
      if-Keeps scans_of _ rest (then-Keeps scans_of (put_dependency-Keeps_scans _) rest)

  delete_unseen-Keeps_scans :
      (seen : List Text) (old : List Dependency)
      → Keeps scans_of (delete_unseen short_hash w seen old)
  unfolding delete_unseen
  delete_unseen-Keeps_scans seen [] = return-Keeps scans_of _
  delete_unseen-Keeps_scans seen (d ∷ old) =
      let rest = delete_unseen-Keeps_scans seen old in
      if-Keeps scans_of _ rest (then-Keeps scans_of (delete_dependency-Keeps_scans d.name) rest)

  dependencies-Keeps_scans :
      (repo : Text) (results : List ScanResult) (now : Time)
      → Keeps scans_of (dependencies short_hash w repo results now)
  unfolding dependencies
  dependencies-Keeps_scans repo results now =
      bind-Keeps scans_of (list_dependencies-Keeps_scans _) (λ stored.
        bind-Keeps scans_of (write_all-Keeps_scans _ _ now _ [] results) (λ written.
          then-Keeps scans_of
            (delete_unseen-Keeps_scans written.1 (keep (λ d. is_own w d.labels) stored))
            (return-Keeps scans_of _)))

  module _ {κ} {B : Type κ} (part : Store → B) where
    owned_scan-Keeps :
        (name : Text) (o : Option RepositoryScan) → Keeps part (owned_scan short_hash w name o)
    unfolding owned_scan
    owned_scan-Keeps name none = return-Keeps part _
    owned_scan-Keeps name (some rs) =
        if-Keeps part (is_own w rs.labels) (return-Keeps part _) (fail-Keeps part _)

    repo_scan-Keeps :
        (repo : Text) → Keeps part list_scans → Keeps part (repo_scan short_hash w repo)
    unfolding repo_scan
    repo_scan-Keeps repo h = bind-Keeps part h (λ l. owned_scan-Keeps _ _)

  new_status-Keeps_scans :
      (repo : Text) (results : List ScanResult) (now : Time) (e : Option Failure) (st : RepoStatus)
      → Keeps scans_of (new_status short_hash w repo results now e st)
  unfolding new_status
  new_status-Keeps_scans repo results now (some e) st = return-Keeps scans_of _
  new_status-Keeps_scans repo results now none st =
      bind-Keeps scans_of (dependencies-Keeps_scans repo results now) (λ c. return-Keeps scans_of _)

  record_repo-KeepsOnFailure :
      (repo : Text) (results : List ScanResult) (scan_err : Option Failure) (now : Time)
      → KeepsOnFailure scans_of (record_repo short_hash w repo results scan_err now)
  unfolding record_repo
  record_repo-KeepsOnFailure repo results scan_err now =
      bind-KeepsOnFailure scans_of (repo_scan-Keeps scans_of repo list_scans-Keeps_scans) (λ rs.
        bind-KeepsOnFailure scans_of (new_status-Keeps_scans repo results now _ rs.status)
          (λ st. put_scan-KeepsOnFailure _))

  -- When a repository's outcome cannot be recorded, whichever call failed, every repository report
  -- is as it was before.
  pub record_repo_failure-scans :
      (repo : Text) (results : List ScanResult) (scan_err : Option Failure) (now : Time) (s : Store)
      (e : Failure) (s' : Store)
      → record_repo short_hash w repo results scan_err now s ≡ failed e s'
      → s'.scans ≡ s.scans
  record_repo_failure-scans repo results scan_err now =
      (record_repo-KeepsOnFailure repo results scan_err now).keeps

  failing-Keeps :
      (repo : Text) (results : List ScanResult) (now : Time) (o : Option Failure) (st : RepoStatus)
      → o ≢ none
      → Keeps deps_of (new_status short_hash w repo results now o st)
  unfolding new_status
  failing-Keeps repo results now none st h = absurd (h refl)
  failing-Keeps repo results now (some e) st h = return-Keeps deps_of _

  record_repo-Keeps_deps :
      (repo : Text) (results : List ScanResult) (scan_err : Option Failure) (now : Time)
      → effective_error results scan_err ≢ none
      → Keeps deps_of (record_repo short_hash w repo results scan_err now)
  unfolding record_repo
  record_repo-Keeps_deps repo results scan_err now h =
      bind-Keeps deps_of (repo_scan-Keeps deps_of repo list_scans-Keeps_deps) (λ rs.
        bind-Keeps deps_of (failing-Keeps repo results now _ rs.status h)
          (λ st. put_scan-Keeps_deps _))

  -- A scan that failed, or that found more references than may be stored, leaves every stored
  -- reference as it was, whether or not its record could be written.
  pub record_repo_failed_scan-deps :
      (repo : Text) (results : List ScanResult) (scan_err : Option Failure) (now : Time) (s : Store)
      → (scan_err ≢ none) ⊎ (max_dependencies < length results)
      → (store_of (record_repo short_hash w repo results scan_err now s)).deps ≡ s.deps
  record_repo_failed_scan-deps repo results scan_err now s h =
      let kept =
        record_repo-Keeps_deps repo results scan_err now
          (effective_error-ne-none results scan_err h) in
      kept.keeps s
