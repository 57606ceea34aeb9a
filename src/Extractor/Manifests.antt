-- ===== src/Extractor/Manifests.antt =====
-- internal/extractor: what helm.go and fluxcd.go read of a YAML document, and the YAML library that
-- reads it, as a parameter.
use yk_update_checker.Extractor.Node.{Node}
use yk_update_checker.Prelude.{Option, List}
use yk_update_checker.Text.{Text}

-- `chartDependency`, `chartManifest`
pub record ChartDependency : Type 0 where
  pub name : Text
  pub version : Text
  pub repository : Text

pub record ChartManifest : Type 0 where
  pub name : Text
  pub dependencies : List ChartDependency

-- `objectMeta`, `crossNamespaceRef`
pub record ObjectMeta : Type 0 where
  pub name : Text
  pub namespace : Text

pub record CrossNamespaceRef : Type 0 where
  pub kind : Text
  pub name : Text
  pub namespace : Text

-- `fluxOCIRef`, `fluxSourceSpec`, `fluxSourceResource`
pub record FluxOciRef : Type 0 where
  pub tag : Text
  pub sem_ver : Text

pub record FluxSourceSpec : Type 0 where
  pub url : Text
  pub ref : FluxOciRef

pub record FluxSource : Type 0 where
  pub kind : Text
  pub metadata : ObjectMeta
  pub spec : FluxSourceSpec

-- `helmChartSpec`, `helmReleaseSpec` with `helmChartWrapper`, `helmReleaseResource`
pub record HelmChartSpec : Type 0 where
  pub chart : Text
  pub version : Text
  pub repo_url : Text
  pub source_ref : Option CrossNamespaceRef

pub record HelmReleaseSpec : Type 0 where
  pub chart_ref : Option CrossNamespaceRef
  pub chart : HelmChartSpec

pub record HelmRelease : Type 0 where
  pub metadata : ObjectMeta
  pub spec : HelmReleaseSpec

-- The YAML library: the results of the calls of a stream's `Decode` up to the end of the text, an
-- error as `none`; `Unmarshal` of one document to a node and to a chart manifest; `Decode` of a node.
pub record YamlLibrary : Type 0 where
  pub stream : Text → List (Option Node)
  pub unmarshal : Text → Option Node
  pub manifest : Text → Option ChartManifest
  pub source : Node → Option FluxSource
  pub release : Node → Option HelmRelease
