-- ===== src/Tests/ScrapeTests.antt =====
-- Metrics and the poller: internal/metrics, internal/report.
use yk_update_checker.Text.{Text, codes, text_eq}
use yk_update_checker.Text.Utf8.{to_valid_utf8, rune_ok, conts, extra, second}
use yk_update_checker.Errkind.{plain}
use yk_update_checker.Report.Types.{ScanResult, Dependency, no_labels}
use yk_update_checker.Report.Store.{Store}
use yk_update_checker.Report.Poller.{Snapshot, empty_snapshot, run}
use yk_update_checker.Report.Poller.Latest.{IsLatest, run-IsLatest}
use yk_update_checker.Metrics.Label.{bound, kind_label}
use yk_update_checker.Metrics.{outdated, scanned, gauge, collect_metrics}
use yk_update_checker.Metrics.Series.{series, NoRepeat}
use yk_update_checker.Metrics.Scrape.{results_of}
use yk_update_checker.Metrics.Shown.{IsShownFor, outdated_labels}
use yk_update_checker.Metrics.Exact.{collect_metrics-outdated_iff, collect_metrics-NoRepeat}
use yk_update_checker.Metrics.Tally.{examined, collect_metrics-examined_iff}
use yk_update_checker.Prelude.{
  Memᴰ, none, some, ◌≡◌, [], ◌∷◌, true, Bool, refl, false, ◌↔◌, ◌≢◌, ◌<◌, Option,
}

abbrev result : Text → Bool → ScanResult
result name behind = record {
  source = codes "homelab";
  path = codes "apps/a.yaml";
  chart = codes "apps";
  dependency = name;
  type_ = codes "image";
  manifest_kind = codes "Deployment";
  protocol = codes "image";
  current_version = codes "7.0.0";
  latest_version = codes "7.1.0";
  scope = codes "minor";
  update_available = behind;
  check_error = [];
  check_error_kind = none;
  checked_at = 5;
  tag_kind = codes "semver";
  current_resolved = [];
  final_stage = false;
  pinned_digest = [];
  image_digest = [];
  digest_changed = true;
  note = [];
  skipped = [];
  current_pushed_at = none;
  latest_pushed_at = none;
}

abbrev stored : ScanResult → Dependency
stored r = record {
  name = codes "a";
  labels = no_labels;
  status = record { result = r; outdated_since = none; latest_seen_at = none };
}

-- Two references with the same labels, and one that is up to date.
abbrev snapshot : Snapshot
snapshot = record {
  repos = [];
  deps =
      stored (result (codes "redis") true)
      ∷ stored (result (codes "redis") true)
      ∷ stored (result (codes "nginx") false)
      ∷ [];
}

-- A byte that begins no character is replaced; a long text ends with three dots of one character.
bound_invalid : bound (b'a' ∷ 0xff ∷ 0xc3 ∷ b'b' ∷ []) ≡ b'a' ∷ 0xef ∷ 0xbf ∷ 0xbd ∷ b'b' ∷ []
unfolding bound to_valid_utf8 rune_ok conts extra second
bound_invalid = refl

kind_label_unknown : kind_label (codes "sunspots") ≡ codes "other"
unfolding kind_label text_eq
kind_label_unknown = refl

collect_metrics-NoRepeat_example : NoRepeat (series outdated (collect_metrics none snapshot))
collect_metrics-NoRepeat_example = collect_metrics-NoRepeat none snapshot outdated

collect_metrics-outdated_iff_example :
    Memᴰ
      (outdated_labels (result (codes "redis") true))
      (series outdated (collect_metrics (some true) snapshot))
    ↔ ((◌≢◌ {A = Option Bool} (some true) (some false))
        × IsShownFor (results_of snapshot) (outdated_labels (result (codes "redis") true)))
collect_metrics-outdated_iff_example =
    collect_metrics-outdated_iff (some true) snapshot
      (outdated_labels (result (codes "redis") true))

collect_metrics-examined_iff_example :
    Memᴰ
      (gauge scanned 3 (codes "homelab" ∷ codes "image" ∷ []))
      (collect_metrics (some true) snapshot)
    ↔ ((◌≢◌ {A = Option Bool} (some true) (some false))
        × (0 < 3)
        × (3 ≡ examined (codes "homelab") (codes "image") (results_of snapshot)))
collect_metrics-examined_iff_example =
    collect_metrics-examined_iff (some true) snapshot (codes "homelab") (codes "image") 3

-- A round that reads two reports, and one whose second read fails.
abbrev readable : Store
readable = record { scans = []; deps = snapshot.deps; faults = [] }

abbrev unreadable : Store
unreadable = record { scans = []; deps = []; faults = none ∷ some (plain (codes "gone")) ∷ [] }

run-IsLatest_example :
    IsLatest empty_snapshot
      (readable ∷ unreadable ∷ [])
      (run empty_snapshot (readable ∷ unreadable ∷ []))
run-IsLatest_example = run-IsLatest empty_snapshot (readable ∷ unreadable ∷ [])
