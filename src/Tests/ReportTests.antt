-- ===== src/Tests/ReportTests.antt =====
-- Recording the outcome of scans: internal/report, internal/errkind.
use yk_update_checker.Report.Writer.Pruned.{report_of, prune-configured}
use mathlib.Core.Option.{none-ne-some}
use yk_update_checker.Prelude.{
  Bool, true, [], ◌≡◌, some, none, ◌∷◌, ◌≢◌, refl, false, Option, List, Memᴰ,
}
use yk_update_checker.Prelude.Int.{pos}
use yk_update_checker.Text.{Text, codes, contains, span}
use yk_update_checker.Named.{find, remove, put}
use yk_update_checker.Errkind.{Failure, plain}
use yk_update_checker.Report.Types.{
  ScanResult, dependency_name, repository_scan_name, RepositoryScan, dns_name,
}
use yk_update_checker.Report.Store.{
  Store, done, failed, scan_name, ◌>>=◌, ◌>>◌, call, list_scans, put_scan, list_dependencies,
  delete_scan,
}
use yk_update_checker.Report.Store.Keeps.{store_of}
use yk_update_checker.Report.Writer.{
  Writer, record_repo, effective_error, repo_scan, prune, prune_scans, delete_all, foreign_owner,
}
use yk_update_checker.Report.Writer.Recorded.{IsRecorded, previous, record_repo-IsRecorded}
use yk_update_checker.Report.Writer.Atomic.{record_repo_failure-scans}
use yk_update_checker.Report.Writer.Follow.{
  follow, IsBehindSince, IsNotBehind, follow-outdated_since,
}

-- Two names that differ have hashes that differ.
abbrev hash : Text → Text
hash s = s

abbrev writer : Writer
writer = record { history = pos 2; instance_ = codes "main" }

abbrev empty : Store
empty = record { scans = []; deps = []; faults = [] }

abbrev broken_disk : Store
broken_disk = record { scans = []; deps = []; faults = some (plain (codes "disk full")) ∷ [] }

abbrev result : Bool → ScanResult
result behind = record {
  source = codes "homelab";
  path = codes "apps/a.yaml";
  chart = codes "apps";
  dependency = codes "redis";
  type_ = codes "image";
  manifest_kind = codes "Deployment";
  protocol = codes "image";
  current_version = codes "7.0.0";
  latest_version = codes "7.1.0";
  scope = codes "minor";
  update_available = behind;
  check_error = [];
  check_error_kind = none;
  checked_at = 5;
  tag_kind = codes "semver";
  current_resolved = [];
  final_stage = false;
  pinned_digest = [];
  image_digest = [];
  digest_changed = false;
  note = [];
  skipped = [];
  current_pushed_at = none;
  latest_pushed_at = none;
}

abbrev network_error : Failure
network_error = plain (codes "no route")

abbrev after_failure : Store
after_failure = store_of (record_repo hash writer (codes "homelab") [] (some network_error) 9 empty)

failure_recorded :
    record_repo hash writer (codes "homelab") [] (some network_error) 9 empty
    ≡ done tt after_failure
unfolding record_repo ◌>>=◌ ◌>>◌ repo_scan list_scans call put_scan
failure_recorded = refl

record_repo-IsRecorded_example :
    (rs : RepositoryScan) × (find scan_name
        (repository_scan_name hash (codes "homelab"))
        after_failure.scans
      ≡ some rs)
    × IsRecorded hash writer
        (codes "homelab")
        []
        9
        (effective_error [] (some network_error))
        (previous hash writer (repository_scan_name hash (codes "homelab")) [])
        rs.status
record_repo-IsRecorded_example =
    record_repo-IsRecorded hash writer (codes "homelab") [] (some network_error) 9 empty
      after_failure failure_recorded

not_recorded :
    record_repo hash writer (codes "homelab") [] (some network_error) 9 broken_disk
    ≡ failed (plain (codes "disk full")) empty
unfolding record_repo ◌>>=◌ ◌>>◌ repo_scan list_scans call
not_recorded = refl

record_repo_failure-scans_example : empty.scans ≡ broken_disk.scans
record_repo_failure-scans_example =
    record_repo_failure-scans hash writer (codes "homelab") [] (some network_error) 9 broken_disk
      (plain (codes "disk full")) empty not_recorded

some-ne-none : ◌≢◌ {A = Option Failure} (some network_error) none
some-ne-none e = cc

nothing_stored : IsNotBehind hash writer (codes "id") (dependency_name hash (result true)) []
unfolding find
nothing_stored d e = absurd (none-ne-some d e)

follow-outdated_since_example :
    IsBehindSince hash writer
      (codes "id")
      (dependency_name hash (result true))
      10
      (follow hash writer (codes "id") [] ((result true, 10) ∷ (result true, 20) ∷ []))
follow-outdated_since_example =
    follow-outdated_since hash writer (codes "id") ((result true, 20) ∷ []) [] (result true) 10
      (dependency_name hash (result true)) nothing_stored (refl, refl) ((refl, refl), tt)

abbrev configured : List Text
configured = codes "other" ∷ codes "homelab" ∷ []

prune-configured_example :
    report_of
      (repository_scan_name hash (codes "homelab"))
      (store_of (prune hash writer configured after_failure))
    ≡ report_of (repository_scan_name hash (codes "homelab")) after_failure
prune-configured_example =
    prune-configured hash writer configured (codes "homelab") after_failure
      (Memᴰ.tail (Memᴰ.head refl))

pruned_run : (store_of (prune hash writer (codes "other" ∷ []) after_failure)).scans ≡ []
unfolding prune record_repo ◌>>=◌ ◌>>◌ repo_scan list_scans call put_scan prune_scans delete_all
    list_dependencies delete_scan remove find put foreign_owner contains repository_scan_name
    dns_name span
pruned_run = refl
