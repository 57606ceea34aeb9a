-- ===== src/Extractor/Flux.antt =====
-- internal/extractor/fluxcd.go: the charts of HelmReleases, resolved against the sources that the
-- files of the repository declare. A map keyed by "namespace/name" is an association list whose first
-- entry for a key counts.
pub mod Sources
pub mod Releases
use yk_update_checker.Prelude.{
  some, none, [], List, Option, if◌then◌else◌, ◌++◌, Bool, ◌||◌, not, ◌∷◌, false,
}
use yk_update_checker.Extractor.Url.{parse_protocol, split_oci_ref}
use yk_update_checker.Extractor.Ref.{Ref}
use yk_update_checker.Extractor.Yaml.{decode_all}
use yk_update_checker.Extractor.Manifests.{
  CrossNamespaceRef, FluxOciRef, FluxSource, HelmRelease, HelmChartSpec, YamlLibrary,
}
use yk_update_checker.Text.{Text, codes, text_eq, is_nil, has_infix}

-- `fluxOCIRef.version`
abbrev pub oci_version : FluxOciRef → Text
oci_version r = if is_nil r.sem_ver then r.tag else r.sem_ver

-- `repoEntry`
pub record RepoEntry : Type 0 where
  pub protocol : Text
  pub repo_url : Text
  pub chart_name : Text
  pub version : Text

-- `FluxCD`
pub record FluxCd : Type 0 where
  pub helm : List (Text × RepoEntry)
  pub oci : List (Text × RepoEntry)

-- `NewFluxCD`
abbrev pub new_flux_cd : FluxCd
new_flux_cd = record { helm = []; oci = [] }

unfoldable pub stored : List (Text × RepoEntry) → Text → Option RepoEntry
unfolding text_eq
stored [] key = none
stored ((k, entry) ∷ store) key = if text_eq k key then some entry else stored store key

-- `FluxCD.Match`
unfoldable pub matches_release : Text → Bool
unfolding has_infix
matches_release content = has_infix content (codes "HelmRelease")

abbrev pub source_key : Text → Text → Text
source_key namespace name = namespace ++ codes "/" ++ name

abbrev pub entry_key : FluxSource → Text
entry_key doc = source_key doc.metadata.namespace doc.metadata.name

unfoldable pub helm_entry : Text → RepoEntry
unfolding parse_protocol
helm_entry url =
    let (protocol, bare) = parse_protocol url in
    record { protocol = protocol; repo_url = bare; chart_name = []; version = [] }

unfoldable pub oci_entry : Text → Text → RepoEntry
unfolding parse_protocol split_oci_ref
oci_entry url version =
    let (protocol, bare) = parse_protocol url in
    let (repo, chart) = split_oci_ref bare in
    record { protocol = protocol; repo_url = repo; chart_name = chart; version = version }

-- The body of the loop of `PrepareFile`
unfoldable pub prepare_source : FluxCd → FluxSource → FluxCd
unfolding text_eq helm_entry oci_entry
prepare_source f doc =
    if text_eq doc.kind (codes "HelmRepository")
    then record { helm = (entry_key doc, helm_entry doc.spec.url) ∷ f.helm; oci = f.oci }
    else if text_eq doc.kind (codes "OCIRepository")
    then record {
      helm = f.helm;
      oci = (entry_key doc, oci_entry doc.spec.url (oci_version doc.spec.ref)) ∷ f.oci;
    }
    else f

unfoldable pub prepare_sources : FluxCd → List FluxSource → FluxCd
unfolding prepare_source
prepare_sources f [] = f
prepare_sources f (doc ∷ docs) = prepare_sources (prepare_source f doc) docs

-- `FluxCD.PrepareFile`
unfoldable pub names_source : Text → Bool
unfolding has_infix
names_source content =
    has_infix content (codes "HelmRepository") || has_infix content (codes "OCIRepository")

unfoldable pub prepare_file : YamlLibrary → FluxCd → Text → FluxCd
unfolding names_source prepare_sources decode_all
prepare_file y f content =
    if not (names_source content) then f else prepare_sources f (decode_all y y.source content)

-- `FluxCD.source`
unfoldable pub source : List (Text × RepoEntry) → CrossNamespaceRef → Text → Option RepoEntry
unfolding stored
source store ref release_ns =
    let ns = if is_nil ref.namespace then release_ns else ref.namespace in
    elim (stored store (source_key ns ref.name)) [
      | some entry ↦ some entry
      | none ↦ stored store (source_key [] ref.name)
    ]

-- `releaseRef`
unfoldable pub release_ref : Text → Text → Text → RepoEntry → List Ref
release_ref release chart version src =
    if is_nil chart || is_nil version
    then []
    else record {
      name = chart;
      chart = release;
      protocol = src.protocol;
      repository = src.repo_url;
      current_version = version;
      digest = [];
      kind = codes "HelmRelease";
      final_stage = false;
    }
      ∷ []

abbrev pub has_kind : Option CrossNamespaceRef → Text → Option CrossNamespaceRef
has_kind none kind = none
has_kind (some r) kind = if text_eq r.kind kind then some r else none

-- The three patterns of `refsFromRelease`
unfoldable pub inline_refs : Text → HelmChartSpec → List Ref
unfolding release_ref helm_entry
inline_refs release cs =
    if is_nil cs.repo_url
    then []
    else release_ref release cs.chart cs.version (helm_entry cs.repo_url)

unfoldable pub source_refs : Text → HelmChartSpec → Option RepoEntry → List Ref
unfolding release_ref
source_refs release cs none = []
source_refs release cs (some entry) = release_ref release cs.chart cs.version entry

unfoldable pub chart_refs : Text → Option RepoEntry → List Ref
unfolding release_ref
chart_refs release none = []
chart_refs release (some entry) = release_ref release entry.chart_name entry.version entry

-- `FluxCD.refsFromRelease`
unfoldable pub refs_from_release : FluxCd → HelmRelease → List Ref
unfolding text_eq source inline_refs source_refs chart_refs
refs_from_release f hr =
    let name = hr.metadata.name in
    let ns = hr.metadata.namespace in
    let cs = hr.spec.chart in
    elim (has_kind hr.spec.chart_ref (codes "OCIRepository")) [
      | some cr ↦ chart_refs name (source f.oci cr ns)
      | none ↦ elim (has_kind cs.source_ref (codes "HelmRepository")) [
        | some sr ↦ source_refs name cs (source f.helm sr ns)
        | none ↦ inline_refs name cs
      ]
    ]

-- `FluxCD.Extract`
unfoldable pub releases_refs : FluxCd → List HelmRelease → List Ref
unfolding refs_from_release
releases_refs f [] = []
releases_refs f (hr ∷ hrs) =
    (if is_nil hr.metadata.name then [] else refs_from_release f hr) ++ releases_refs f hrs

unfoldable pub extract_releases : YamlLibrary → FluxCd → Text → List Ref
unfolding releases_refs decode_all
extract_releases y f content = releases_refs f (decode_all y y.release content)
