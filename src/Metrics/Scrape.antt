-- ===== src/Metrics/Scrape.antt =====
-- A whole scrape: its families of series are free of repetition, and the counts are exact.
use mathlib.Core.Path.{subst}
use yk_update_checker.Prelude.{List, ◌≡◌, [], map, ℕ, false, ◌++◌, ◌∷◌, ◌∙◌, refl, ap, ap₂, sym}
use mathlib.Core.List.{append-nil}
use yk_update_checker.Text.{Text}
use yk_update_checker.Text.Distinct.{IsDistinct}
use yk_update_checker.Report.Types.{ScanResult, Dependency}
use yk_update_checker.Report.Poller.{Snapshot}
use yk_update_checker.Metrics.{
  Desc, State, start, outdated, scanned, drift, failed, skipped, last_scan, repo_fail, key,
  count_metric, collect_results, collect_repos, collect_snapshot,
}
use yk_update_checker.Metrics.Series.{
  series, series-append, NoRepeat, IsDistinct-NoRepeat, same, Covered,
}
use yk_update_checker.Metrics.Unique.{IsApart, collect_results-IsApart, identity_key}
use yk_update_checker.Metrics.Repos.{
  series-collect_repos, collect_repos-repo_fail, collect_repos-last_scan,
}
use yk_update_checker.Metrics.Counts.{IsCounts, keys-series, counts-collect_results}

abbrev pub results_of : Snapshot → List ScanResult
results_of snap = map (λ (d : Dependency). d.status.result) snap.deps

abbrev pub end_of : Snapshot → State
end_of snap = collect_results (results_of snap) start

start-IsApart : IsApart start
unfolding series
start-IsApart = ((tt, tt), (tt, tt), (tt, tt), (tt, tt), (refl, refl, refl))

pub end_of-IsApart : (snap : Snapshot) → IsApart (end_of snap)
end_of-IsApart snap = collect_results-IsApart (results_of snap) start start-IsApart

pub end_of-IsCounts : (snap : Snapshot) → IsCounts (end_of snap).counts
end_of-IsCounts snap = (counts-collect_results (results_of snap) start (tt, tt)).0

-- The metrics made of the counts are of one family.
series-count_metric :
    (d : Desc) (counts : List (Text × ℕ))
    → same d scanned ≡ false
    → series d (map count_metric counts) ≡ []
unfolding series count_metric
series-count_metric d [] h = refl
series-count_metric d ((k, n) ∷ counts) h = rw h (series-count_metric d counts h)

-- The three parts of a scrape.
series-collect_snapshot :
    (d : Desc) (snap : Snapshot)
    → series d (collect_snapshot snap)
      ≡ series d (collect_repos snap.repos [] 0 [])
        ++ (series d (end_of snap).out ++ series d (map count_metric (end_of snap).counts))
unfolding collect_snapshot
series-collect_snapshot d snap =
    series-append d (collect_repos snap.repos [] 0 []) _
    ∙ ap (λ l. series d (collect_repos snap.repos [] 0 []) ++ l)
        (series-append d (end_of snap).out (map count_metric (end_of snap).counts))

-- The families of the loop over the results.
pub series-loop :
    (d : Desc) (snap : Snapshot)
    → same d last_scan ≡ false
    → same d repo_fail ≡ false
    → same d scanned ≡ false
    → series d (collect_snapshot snap) ≡ series d (end_of snap).out
unfolding series
series-loop d snap h k l =
    series-collect_snapshot d snap
    ∙ ap₂ (λ a b. a ++ (series d (end_of snap).out ++ b))
        (series-collect_repos d snap.repos [] 0 [] h k)
        (series-count_metric d (end_of snap).counts l)
    ∙ append-nil (series d (end_of snap).out)

-- The families of the repositories.
series-repos :
    (d : Desc) (snap : Snapshot)
    → series d (end_of snap).out ≡ []
    → same d scanned ≡ false
    → series d (collect_snapshot snap) ≡ series d (collect_repos snap.repos [] 0 [])
unfolding series
series-repos d snap h k =
    series-collect_snapshot d snap
    ∙ ap₂ (λ a b. series d (collect_repos snap.repos [] 0 []) ++ (a ++ b)) h
        (series-count_metric d (end_of snap).counts k)
    ∙ append-nil (series d (collect_repos snap.repos [] 0 []))

series-scanned :
    (snap : Snapshot)
    → series scanned (collect_snapshot snap)
      ≡ series scanned (map count_metric (end_of snap).counts)
unfolding series
series-scanned snap =
    let (a, b, c, d, z) = end_of-IsApart snap in
    series-collect_snapshot scanned snap
    ∙ ap₂ (λ a b. a ++ (b ++ series scanned (map count_metric (end_of snap).counts)))
        (series-collect_repos scanned snap.repos [] 0 [] refl refl) z.0

apart :
    (f : List Text → Text) (seen : List Text) (d : Desc) (snap : Snapshot)
    → same d last_scan ≡ false
    → same d repo_fail ≡ false
    → same d scanned ≡ false
    → Covered f seen (series d (end_of snap).out)
    → NoRepeat (series d (collect_snapshot snap))
apart f seen d snap h k l c =
    subst NoRepeat (sym (series-loop d snap h k l)) (IsDistinct-NoRepeat f _ c.1)

pub collect_snapshot-NoRepeat :
    (snap : Snapshot) (d : Desc) → NoRepeat (series d (collect_snapshot snap))
unfolding series
collect_snapshot-NoRepeat snap d =
    let (a, b, c, e, z) = end_of-IsApart snap in
    elim d as (λ d. NoRepeat (series d (collect_snapshot snap))) [
      | outdated ↦ apart key _ outdated snap refl refl refl a
      | drift ↦ apart key _ drift snap refl refl refl b
      | failed ↦ apart identity_key _ failed snap refl refl refl c
      | skipped ↦ apart identity_key _ skipped snap refl refl refl e
      | scanned ↦ subst NoRepeat (sym (series-scanned snap)) (
          IsDistinct-NoRepeat key _ (
            subst IsDistinct (sym (keys-series (end_of snap).counts (end_of-IsCounts snap).1))
              (end_of-IsCounts snap).0))
      | last_scan ↦
          subst NoRepeat (sym (series-repos last_scan snap z.1 refl))
            (collect_repos-last_scan snap.repos [] 0 [] refl)
      | repo_fail ↦
          subst NoRepeat (sym (series-repos repo_fail snap z.2 refl))
            (collect_repos-repo_fail snap.repos [] 0 [] (tt, tt))
    ]
