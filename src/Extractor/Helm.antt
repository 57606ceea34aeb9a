-- ===== src/Extractor/Helm.antt =====
-- internal/extractor/helm.go: the dependencies of a Chart.yaml.
pub mod Laws
use yk_update_checker.Prelude.{[], Option, List, Bool, not, false, ◌∷◌, ◌||◌, if◌then◌else◌, ◌&&◌}
use mathlib.Core.Option
use yk_update_checker.Extractor.Paths.{base_name}
use yk_update_checker.Extractor.Url.{parse_protocol}
use yk_update_checker.Extractor.Ref.{Ref}
use yk_update_checker.Extractor.Manifests.{ChartDependency, ChartManifest, YamlLibrary}
use yk_update_checker.Text.{Text, codes, text_eq, to_lower, is_nil, has_prefix}

-- `HelmChart.Match`
unfoldable pub matches_chart : Text → Bool
unfolding text_eq to_lower base_name
matches_chart path = text_eq (to_lower (base_name path)) (codes "chart.yaml")

-- `remoteChartRepository`
unfoldable pub remote_chart_repository : Text → Bool
unfolding has_prefix
remote_chart_repository repo =
    not (has_prefix repo (codes "file://"))
    && not (has_prefix repo (codes "@"))
    && not (has_prefix repo (codes "alias:"))

unfoldable pub is_pinned : ChartDependency → Bool
unfolding remote_chart_repository
is_pinned d = not (
    is_nil d.repository
    || is_nil d.name
    || is_nil d.version
    || not (remote_chart_repository d.repository))

unfoldable pub dependency_ref : ChartDependency → Ref
unfolding parse_protocol
dependency_ref d =
    let (protocol, repo) = parse_protocol d.repository in
    record {
      name = d.name;
      chart = [];
      protocol = protocol;
      repository = repo;
      current_version = d.version;
      digest = [];
      kind = [];
      final_stage = false;
    }

unfoldable pub dependency_refs : List ChartDependency → List Ref
unfolding is_pinned dependency_ref
dependency_refs [] = []
dependency_refs (d ∷ ds) =
    let rest = dependency_refs ds in if is_pinned d then dependency_ref d ∷ rest else rest

-- `HelmChart.Extract`: the chart's name and its references; `none` is the error of the parser.
unfoldable pub extract_chart : YamlLibrary → Text → Option (Text × List Ref)
unfolding dependency_refs
extract_chart y content =
    Option.map (λ (m : ChartManifest). (m.name, dependency_refs m.dependencies))
      (y.manifest content)
