-- ===== src/Metrics/Repos.antt =====
-- The series of `collectRepos`: one for each repository and kind, and the latest scan.
use mathlib.Core.Path.{subst}
use yk_update_checker.Prelude.{
  List, ◌≡◌, [], sym, false, Bool-cases, ◌∷◌, ◌++◌, ltb, inl, if◌then◌else◌, inr, ◌∙◌, refl,
}
use mathlib.Core.List.{append-nil}
use yk_update_checker.Text.{Text, contains}
use yk_update_checker.Report.Types.{RepositoryScan, Time}
use yk_update_checker.Metrics.{
  Desc, Metric, last_scan, repo_fail, gauge, key, collect_repos, repo_labels, later_scan,
  repo_failed,
}
use yk_update_checker.Metrics.Series.{
  series, series-own, series-other, same, Covered, Covered-own, NoRepeat, IsDistinct-NoRepeat,
}

series-last :
    (d : Desc) (last : Time) (out : List Metric)
    → same d last_scan ≡ false
    → series d (out ++ (if ltb 0 last then gauge last_scan last [] ∷ [] else [])) ≡ series d out
series-last d last out h = elim (Bool-cases (ltb 0 last)) [
  | inl e ↦ rw e (series-other d last_scan out last [] h)
  | inr e ↦ rw (e, append-nil) refl
]

-- The other families have nothing of it.
pub series-collect_repos :
    (d : Desc) (repos : List RepositoryScan) (seen : List Text) (last : Time) (out : List Metric)
    → same d last_scan ≡ false
    → same d repo_fail ≡ false
    → series d (collect_repos repos seen last out) ≡ series d out
unfolding collect_repos
series-collect_repos d [] seen last out h k = series-last d last out h
series-collect_repos d (rs ∷ repos) seen last out h k =
    elim (Bool-cases (contains seen (key (repo_labels rs)))) [
      | inl e ↦
          rw e (
            series-collect_repos d repos seen (later_scan rs.status.last_success_time last) out h k)
      | inr e ↦ rw e (
          series-collect_repos d repos (seen ++ key (repo_labels rs) ∷ [])
            (later_scan rs.status.last_success_time last) _ h k
          ∙ series-other d repo_fail out _ (repo_labels rs) k)
    ]

pub collect_repos-repo_fail :
    (repos : List RepositoryScan) (seen : List Text) (last : Time) (out : List Metric)
    → Covered key seen (series repo_fail out)
    → NoRepeat (series repo_fail (collect_repos repos seen last out))
unfolding collect_repos
collect_repos-repo_fail [] seen last out (h, d) =
    subst NoRepeat (sym (series-last repo_fail last out refl))
      (IsDistinct-NoRepeat key (series repo_fail out) d)
collect_repos-repo_fail (rs ∷ repos) seen last out c =
    elim (Bool-cases (contains seen (key (repo_labels rs)))) [
      | inl e ↦ rw e (collect_repos-repo_fail repos seen _ out c)
      | inr e ↦ rw e (
          collect_repos-repo_fail repos (seen ++ key (repo_labels rs) ∷ []) _ _
            (Covered-own key repo_fail seen out (repo_failed rs.status.error) (repo_labels rs) e c))
    ]

pub collect_repos-last_scan :
    (repos : List RepositoryScan) (seen : List Text) (last : Time) (out : List Metric)
    → series last_scan out ≡ []
    → NoRepeat (series last_scan (collect_repos repos seen last out))
unfolding collect_repos
collect_repos-last_scan [] seen last out h = elim (Bool-cases (ltb 0 last)) [
  | inl e ↦ rw (e, series-own last_scan out last [], h) (λ m. elim m [ ], tt)
  | inr e ↦ rw (e, append-nil, h) tt
]
collect_repos-last_scan (rs ∷ repos) seen last out h =
    elim (Bool-cases (contains seen (key (repo_labels rs)))) [
      | inl e ↦ rw e (collect_repos-last_scan repos seen _ out h)
      | inr e ↦ rw e (
          collect_repos-last_scan repos (seen ++ key (repo_labels rs) ∷ []) _ _
            (series-other last_scan repo_fail out _ (repo_labels rs) refl ∙ h))
    ]
