-- ===== src/Extractor/Helm/Laws.antt =====
-- internal/extractor/helm.go: the references of a Chart.yaml.
use mathlib.Core.Path.{subst}
use yk_update_checker.Prelude.{
  List, ◌≡◌, Memᴰ, true, ◌∷◌, ◌≢◌, [], sym, refl, arith, Bool-cases, inl, inr,
}
use mathlib.Core.List.Memᴰ
use yk_update_checker.Extractor.Helm.{
  dependency_refs, is_pinned, dependency_ref, remote_chart_repository,
}
use yk_update_checker.Extractor.Url.Laws.{IsSpelling, parse_protocol-IsSpelling}
use yk_update_checker.Extractor.Ref.{Ref}
use yk_update_checker.Extractor.Manifests.{ChartDependency}

-- A dependency that is complete and of a repository which a registry answers for, as a reference.
abbrev pub IsDependency : ChartDependency → Ref → Type 0
IsDependency d r =
    (r.name ≡ d.name)
    × (r.current_version ≡ d.version)
    × IsSpelling d.repository (r.protocol, r.repository)
    × (remote_chart_repository d.repository ≡ true)
    × (d.name ≢ [])
    × (d.version ≢ [])
    × (d.repository ≢ [])

is_pinned-IsDependency :
    (d : ChartDependency) → is_pinned d ≡ true → IsDependency d (dependency_ref d)
unfolding is_pinned dependency_ref
is_pinned-IsDependency d h = (
  refl,
  refl,
  parse_protocol-IsSpelling d.repository,
  ground (arith, h),
  λ e. ground (arith, h, e),
  λ e. ground (arith, h, e),
  λ e. ground (arith, h, e),
)

module _ {d : ChartDependency} {ds : List ChartDependency} (r : Ref) where
  later :
      (x : ChartDependency) × Memᴰ x ds × IsDependency x r
      → (x : ChartDependency) × Memᴰ x (d ∷ ds) × IsDependency x r
  later (x, k, h) = (x, Memᴰ.tail k, h)

  here :
      r ≡ dependency_ref d
      → is_pinned d ≡ true
      → (x : ChartDependency) × Memᴰ x (d ∷ ds) × IsDependency x r
  here q e = (d, Memᴰ.head refl, subst (IsDependency d) (sym q) (is_pinned-IsDependency d e))

-- Every reference read off the dependencies of a Chart.yaml has the name and the version of one of
-- them, neither empty, and its protocol and repository spell the dependency's repository, which is
-- no file, no alias and no other name of the chart's own.
pub dependency_refs-IsDependency :
    (ds : List ChartDependency) {r : Ref}
    → Memᴰ r (dependency_refs ds)
    → (d : ChartDependency) × Memᴰ d ds × IsDependency d r
unfolding dependency_refs
dependency_refs-IsDependency [] m = elim m [ ]
dependency_refs-IsDependency (d ∷ ds) {r} m = elim (Bool-cases (is_pinned d)) [
  | inl e ↦ elim (Memᴰ.cases_cons (rw e at m)) [
    | inl q ↦ here r q e
    | inr k ↦ later r (dependency_refs-IsDependency ds k)
  ]
  | inr e ↦ later r (dependency_refs-IsDependency ds (rw e at m))
]
