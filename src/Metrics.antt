-- ===== src/Metrics.antt =====
-- internal/metrics/collector.go: the series of a scrape. A text is its bytes, as Go's strings are.
-- The map of counts is a list in the order of the first insertion; Go ranges over it in any order.
-- The names and help texts of the descriptors, and what Prometheus does with them, are left out.
pub mod Label
pub mod Series
pub mod Unique
pub mod Repos
pub mod Counts
pub mod Scrape
pub mod Shown
pub mod Exact
pub mod Tally
use yk_update_checker.Prelude.{
  ◌++◌, [], Option, ◌∷◌, Bool, ℕ, List, map, some, not, if◌then◌else◌, ◌||◌, none, ◌+◌, ◌&&◌, ltb,
  length,
}
use yk_update_checker.Report.Types.{ScanResult, Dependency, RepositoryScan, ErrorInfo, Time}
use yk_update_checker.Report.Poller.{Snapshot}
use yk_update_checker.Errkind.{Kind, kind_name}
use yk_update_checker.Text.{Text, contains, join, codes, is_nil, text_eq}
use yk_update_checker.Text.Cut.{cut}
use yk_update_checker.Metrics.Label.{bound, kind_label}

-- The descriptors of `ResultCollector`.
pub data Desc : Type 0 where
  outdated scanned drift failed skipped last_scan repo_fail : Desc

-- A gauge sent on the channel: its descriptor, value and label values.
pub record Metric : Type 0 where
  pub desc : Desc
  pub value : ℕ
  pub labels : List Text

abbrev pub gauge : Desc → ℕ → List Text → Metric
gauge d n ls = record { desc = d; value = n; labels = ls }

-- `Describe`
abbrev pub describe : List Desc
describe = outdated ∷ scanned ∷ drift ∷ failed ∷ skipped ∷ last_scan ∷ repo_fail ∷ []

unfoldable pub identity_values : ScanResult → List Text
identity_values r =
    bound r.source
    ∷ bound r.chart
    ∷ bound r.dependency
    ∷ bound r.type_
    ∷ bound r.manifest_kind
    ∷ bound r.protocol
    ∷ bound r.path
    ∷ bound r.tag_kind
    ∷ []

unfoldable pub change_values : ScanResult → List Text
change_values r = bound r.scope ∷ bound r.current_version ∷ bound r.latest_version ∷ []

-- The byte 0xff stands between the parts of a key.
abbrev pub key : List Text → Text
key ls = join (0xff ∷ []) ls

abbrev pub optional_kind : Option Kind → Text
optional_kind none = []
optional_kind (some k) = kind_name k

abbrev pub has_issue : ScanResult → Bool
has_issue r = not (is_nil r.check_error) || not (ltb (length r.skipped) 1)

-- What `collectIssues` sends for a reference that has an issue.
unfoldable pub issues : ScanResult → List Text → List Metric
issues r id =
    (if is_nil r.check_error
      then []
      else gauge failed 1 (id ++ kind_label (optional_kind r.check_error_kind) ∷ []) ∷ [])
    ++ (if ltb (length r.skipped) 1 then [] else gauge skipped (length r.skipped) id ∷ [])

-- The state of the loop of `Collect`: the three sets, the counts, and what has been sent.
pub record State : Type 0 where
  pub seen : List Text
  pub seen_drift : List Text
  pub seen_ref : List Text
  pub counts : List (Text × ℕ)
  pub duplicates : ℕ
  pub out : List Metric

-- `collectIssues`
unfoldable pub collect_issues : ScanResult → List Text → State → State
unfolding issues
collect_issues r id st =
    if contains st.seen_ref (key id) || not (has_issue r)
    then st
    else record st { seen_ref = st.seen_ref ++ key id ∷ []; out = st.out ++ issues r id }

unfoldable pub collect_drift : ScanResult → List Text → State → State
collect_drift r id st =
    if r.digest_changed && not (contains st.seen_drift (key id))
    then record st {
      seen_drift = st.seen_drift ++ key id ∷ [];
      out = st.out ++ gauge drift 1 id ∷ [];
    }
    else st

unfoldable pub collect_update : ScanResult → List Text → State → State
collect_update r ls st =
    if not r.update_available
    then st
    else if contains st.seen (key ls)
    then record st { duplicates = st.duplicates + 1 }
    else record st { seen = st.seen ++ key ls ∷ []; out = st.out ++ gauge outdated 1 ls ∷ [] }

-- `scanned[k]++`
unfoldable pub count_up : Text → List (Text × ℕ) → List (Text × ℕ)
count_up k [] = (k, 1) ∷ []
count_up k ((k₁, n) ∷ counts) =
    let rest = (k₁, n) ∷ count_up k counts in if text_eq k₁ k then (k₁, n + 1) ∷ counts else rest

abbrev count_reference : ScanResult → State → State
count_reference r st = record st {
  counts = count_up (key (bound r.source ∷ bound r.type_ ∷ [])) st.counts;
}

-- One round of the loop.
unfoldable pub collect_result : ScanResult → State → State
collect_result r st = collect_update r (identity_values r ++ change_values r) (
    collect_drift r (identity_values r)
      (collect_issues r (identity_values r) (count_reference r st)))

unfoldable pub collect_results : List ScanResult → State → State
collect_results [] st = st
collect_results (r ∷ rs) st = collect_results rs (collect_result r st)

abbrev or_no_type : Option Text → Text
or_no_type none = []
or_no_type (some t) = t

-- `source, typ, _ := strings.Cut(compound, "\xff")`
unfoldable pub count_metric : Text × ℕ → Metric
count_metric (k, n) = gauge scanned n ((cut 0xff k).0 ∷ or_no_type (cut 0xff k).1 ∷ [])

abbrev pub start : State
start = record { seen = []; seen_drift = []; seen_ref = []; counts = []; duplicates = 0; out = [] }

-- The series of one repository: its labels, and 1 when the latest scan failed.
abbrev pub repo_failed : Option ErrorInfo → ℕ
repo_failed none = 0
repo_failed (some e) = 1

abbrev repo_kind : Option ErrorInfo → Text
repo_kind none = []
repo_kind (some e) = kind_label (kind_name e.kind)

unfoldable pub repo_labels : RepositoryScan → List Text
repo_labels rs = bound rs.status.repo ∷ repo_kind rs.status.error ∷ []

unfoldable pub later_scan : Option Time → Time → Time
later_scan none last = last
later_scan (some t) last = if ltb last t then t else last

-- The loop of `collectRepos`: the set, the latest time, and what has been sent.
unfoldable pub collect_repos : List RepositoryScan → List Text → Time → List Metric → List Metric
collect_repos [] seen last out = out ++ (if ltb 0 last then gauge last_scan last [] ∷ [] else [])
collect_repos (rs ∷ repos) seen last out =
    let next = later_scan rs.status.last_success_time last in
    let ls = repo_labels rs in
    let dup = contains seen (key ls) in
    collect_repos repos (if dup then seen else seen ++ key ls ∷ []) next
      (if dup then out else out ++ gauge repo_fail (repo_failed rs.status.error) ls ∷ [])

-- `Collect` of the leader.
unfoldable pub collect_snapshot : Snapshot → List Metric
collect_snapshot snap =
    let st = collect_results (map (λ (d : Dependency). d.status.result) snap.deps) start in
    collect_repos snap.repos [] 0 [] ++ (st.out ++ map count_metric st.counts)

-- `Collect`: `leading` is none where the collector has no such function.
unfoldable pub collect_metrics : Option Bool → Snapshot → List Metric
unfolding collect_snapshot
collect_metrics none snap = collect_snapshot snap
collect_metrics (some leading) snap = if leading then collect_snapshot snap else []
