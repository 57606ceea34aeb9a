-- ===== src/Extractor/Flux/Releases.antt =====
-- internal/extractor/fluxcd.go: the reference of a HelmRelease.
use yk_update_checker.Extractor.Yaml.{decode_all}
use yk_update_checker.Extractor.Ref.{Ref}
use yk_update_checker.Prelude.{
  if◌then◌else◌, List, ◌≢◌, ◌≡◌, none, some, [], ◌∷◌, refl, false, All, ◌++◌, ◌∙◌, Option,
  Option-cases, inr, Bool-cases, inl, All-append,
}
use yk_update_checker.Extractor.Flux.{
  FluxCd, RepoEntry, stored, helm_entry, source, release_ref, source_refs, refs_from_release,
  source_key, has_kind, chart_refs, oci_entry, prepare_sources, oci_version, new_flux_cd,
  extract_releases, releases_refs, inline_refs,
}
use yk_update_checker.Extractor.Flux.Sources.{
  helm_kind, oci_kind, Declares, helm-last, helm-other, oci_entry_of, oci-last,
}
use yk_update_checker.Extractor.Manifests.{
  HelmRelease, CrossNamespaceRef, FluxSource, HelmChartSpec, YamlLibrary,
}
use yk_update_checker.Extractor.Url.{parse_protocol, split_oci_ref}
use yk_update_checker.Text.{Text, codes, is_nil}

-- The namespace a release's reference means.
abbrev pub namespace_of : CrossNamespaceRef → HelmRelease → Text
namespace_of ref hr = if is_nil ref.namespace then hr.metadata.namespace else ref.namespace

abbrev pub key_of : CrossNamespaceRef → HelmRelease → Text
key_of ref hr = source_key (namespace_of ref hr) ref.name

source-own :
    (store : List (Text × RepoEntry)) (ref : CrossNamespaceRef) (hr : HelmRelease)
    (entry : RepoEntry)
    → stored store (key_of ref hr) ≡ some entry
    → source store ref hr.metadata.namespace ≡ some entry
unfolding source
source-own store ref hr entry e = rw (e, source) refl

source-shared :
    (store : List (Text × RepoEntry)) (ref : CrossNamespaceRef) (hr : HelmRelease)
    → stored store (key_of ref hr) ≡ none
    → source store ref hr.metadata.namespace ≡ stored store (source_key [] ref.name)
unfolding source
source-shared store ref hr e = rw (e, source) refl

-- A release whose chart comes from a `HelmRepository`, by `sourceRef`.
pub record NamesRepository (hr : HelmRelease) (sr : CrossNamespaceRef) : Type 0 where
  pub no_chart_ref : has_kind hr.spec.chart_ref oci_kind ≡ none
  pub source_ref : has_kind hr.spec.chart.source_ref helm_kind ≡ some sr
  pub has_chart : hr.spec.chart.chart ≢ []
  pub has_version : hr.spec.chart.version ≢ []

-- The one reference of a release with the chart and the version it is pinned to and its repository.
pub record IsRelease (hr : HelmRelease) (chart version : Text) (at_repo : Text × Text)
    (refs : List Ref) : Type 0 where
  pub ref : Ref
  pub single : refs ≡ ref ∷ []
  pub release : ref.chart ≡ hr.metadata.name
  pub name : ref.name ≡ chart
  pub pinned : ref.current_version ≡ version
  pub repository : (ref.protocol, ref.repository) ≡ at_repo
  pub kind : ref.kind ≡ codes "HelmRelease"

release_ref-IsRelease :
    (hr : HelmRelease) (chart version : Text) (src : RepoEntry)
    → chart ≢ []
    → version ≢ []
    → IsRelease hr chart version
        (src.protocol, src.repo_url)
        (release_ref hr.metadata.name chart version src)
unfolding release_ref
release_ref-IsRelease hr [] version src c v = absurd (c refl)
release_ref-IsRelease hr (x ∷ chart) [] src c v = absurd (v refl)
release_ref-IsRelease hr (x ∷ chart) (z ∷ version) src c v = record {
  ref = _;
  single = refl;
  release = refl;
  name = refl;
  pinned = refl;
  repository = refl;
  kind = refl;
}

module _ (hr : HelmRelease) (sr : CrossNamespaceRef) (n : NamesRepository hr sr) where
  refs_from_release-source :
      (f : FluxCd) (url : Text)
      → source f.helm sr hr.metadata.namespace ≡ some (helm_entry url)
      → IsRelease hr hr.spec.chart.chart hr.spec.chart.version
          (parse_protocol url)
          (refs_from_release f hr)
  unfolding refs_from_release source_refs helm_entry
  refs_from_release-source f url e =
      rw (n.no_chart_ref, n.source_ref, refs_from_release, e, source_refs)
        (release_ref-IsRelease hr hr.spec.chart.chart hr.spec.chart.version (helm_entry url)
          n.has_chart n.has_version)

  -- A release that has no `chartRef`, has a chart and a version, neither of them empty, and whose
  -- `sourceRef` names a `HelmRepository` gives exactly one reference: the chart and version of the
  -- release at the URL of the last document among the prepared ones that has this kind, the name and
  -- the namespace meant, whatever was prepared before.
  pub refs_from_release-own :
      (f : FluxCd) (front : List FluxSource) (doc : FluxSource) (back : List FluxSource)
      → Declares helm_kind (key_of sr hr) doc
      → All (λ d. ¬ Declares helm_kind (key_of sr hr) d) back
      → IsRelease hr hr.spec.chart.chart hr.spec.chart.version
          (parse_protocol doc.spec.url)
          (refs_from_release (prepare_sources f (front ++ doc ∷ back)) hr)
  refs_from_release-own f front doc back d h =
      let s = prepare_sources f (front ++ doc ∷ back) in
      refs_from_release-source s doc.spec.url (
        source-own s.helm sr hr (helm_entry doc.spec.url)
          (helm-last f (key_of sr hr) front doc back d h))

  -- Where no prepared document has the namespace meant, the last one of the name and of no namespace
  -- is taken instead.
  pub refs_from_release-shared :
      (front : List FluxSource) (doc : FluxSource) (back : List FluxSource)
      → All (λ d. ¬ Declares helm_kind (key_of sr hr) d) (front ++ doc ∷ back)
      → Declares helm_kind (source_key [] sr.name) doc
      → All (λ d. ¬ Declares helm_kind (source_key [] sr.name) d) back
      → IsRelease hr hr.spec.chart.chart hr.spec.chart.version
          (parse_protocol doc.spec.url)
          (refs_from_release (prepare_sources new_flux_cd (front ++ doc ∷ back)) hr)
  unfolding stored
  refs_from_release-shared front doc back none_own d h =
      let s = prepare_sources new_flux_cd (front ++ doc ∷ back) in
      refs_from_release-source s doc.spec.url (
        source-shared s.helm sr hr
          (helm-other new_flux_cd (key_of sr hr) (front ++ doc ∷ back) none_own ∙ empty)
        ∙ helm-last new_flux_cd (source_key [] sr.name) front doc back d h)
    where
      empty : stored new_flux_cd.helm (key_of sr hr) ≡ none
      empty = refl

  -- A source that no prepared document declares gives no reference.
  pub refs_from_release-unknown :
      (docs : List FluxSource)
      → All (λ d. ¬ Declares helm_kind (key_of sr hr) d) docs
      → All (λ d. ¬ Declares helm_kind (source_key [] sr.name) d) docs
      → refs_from_release (prepare_sources new_flux_cd docs) hr ≡ []
  unfolding refs_from_release source_refs stored
  refs_from_release-unknown docs own shared =
      let s = prepare_sources new_flux_cd docs in
      let absent : source s.helm sr hr.metadata.namespace ≡ none =
        source-shared s.helm sr hr (helm-other new_flux_cd (key_of sr hr) docs own)
        ∙ helm-other new_flux_cd (source_key [] sr.name) docs shared in
      rw (n.no_chart_ref, n.source_ref, refs_from_release, absent, source_refs) refl

-- A release whose `chartRef` names an `OCIRepository` gives exactly one reference: the chart that is
-- the last segment of the URL of the last document prepared with the kind, name and namespace meant,
-- pinned to that document's version, at the rest of the URL.
pub refs_from_release-oci :
    (f : FluxCd) (hr : HelmRelease) (cr : CrossNamespaceRef) (front : List FluxSource)
    (doc : FluxSource) (back : List FluxSource)
    → has_kind hr.spec.chart_ref oci_kind ≡ some cr
    → Declares oci_kind (key_of cr hr) doc
    → All (λ d. ¬ Declares oci_kind (key_of cr hr) d) back
    → (split_oci_ref (parse_protocol doc.spec.url).1).1 ≢ []
    → oci_version doc.spec.ref ≢ []
    → IsRelease hr
        (split_oci_ref (parse_protocol doc.spec.url).1).1
        (oci_version doc.spec.ref)
        ((parse_protocol doc.spec.url).0, (split_oci_ref (parse_protocol doc.spec.url).1).0)
        (refs_from_release (prepare_sources f (front ++ doc ∷ back)) hr)
unfolding refs_from_release chart_refs oci_entry
refs_from_release-oci f hr cr front doc back e d h c v =
    let s = prepare_sources f (front ++ doc ∷ back) in
    let found =
      source-own s.oci cr hr (oci_entry_of doc) (oci-last f (key_of cr hr) front doc back d h) in
    rw (e, refs_from_release, found, chart_refs)
      (release_ref-IsRelease hr (oci_entry_of doc).chart_name (oci_entry_of doc).version
        (oci_entry_of doc) c v)

-- What the version engine needs of a chart reference.
abbrev pub IsComplete : Ref → Type 0
IsComplete r =
    (r.name ≢ [])
    × (r.chart ≢ [])
    × (r.current_version ≢ [])
    × (r.kind ≡ codes "HelmRelease")
    × (r.final_stage ≡ false)

release_ref-IsComplete :
    (release chart version : Text) (src : RepoEntry)
    → release ≢ []
    → All IsComplete (release_ref release chart version src)
unfolding release_ref
release_ref-IsComplete release [] version src n = tt
release_ref-IsComplete release (x ∷ chart) [] src n = tt
release_ref-IsComplete release (x ∷ chart) (z ∷ version) src n =
    ((λ e. cc e, n, λ e. cc e, refl, refl), tt)

module _ (release : Text) (n : release ≢ []) where
  source_refs-IsComplete :
      (cs : HelmChartSpec) (o : Option RepoEntry) → All IsComplete (source_refs release cs o)
  unfolding source_refs
  source_refs-IsComplete cs none = tt
  source_refs-IsComplete cs (some entry) =
      release_ref-IsComplete release cs.chart cs.version entry n

  chart_refs-IsComplete : (o : Option RepoEntry) → All IsComplete (chart_refs release o)
  unfolding chart_refs
  chart_refs-IsComplete none = tt
  chart_refs-IsComplete (some entry) =
      release_ref-IsComplete release entry.chart_name entry.version entry n

  inline_refs-IsComplete : (cs : HelmChartSpec) → All IsComplete (inline_refs release cs)
  unfolding inline_refs
  inline_refs-IsComplete cs = elim (Bool-cases (is_nil cs.repo_url)) [
    | inl e ↦ rw e tt
    | inr e ↦ rw e (release_ref-IsComplete release cs.chart cs.version (helm_entry cs.repo_url) n)
  ]

refs_from_release-IsComplete :
    (f : FluxCd) (hr : HelmRelease)
    → hr.metadata.name ≢ []
    → All IsComplete (refs_from_release f hr)
unfolding refs_from_release
refs_from_release-IsComplete f hr n =
    elim (Option-cases (has_kind hr.spec.chart_ref (codes "OCIRepository"))) [
      | inr (cr, e) ↦
          rw (e, refs_from_release)
            (chart_refs-IsComplete hr.metadata.name n (source f.oci cr hr.metadata.namespace))
      | inl e ↦ elim (Option-cases (has_kind hr.spec.chart.source_ref (codes "HelmRepository"))) [
        | inr (sr, k) ↦
            rw (e, refs_from_release, k)
              (source_refs-IsComplete hr.metadata.name n hr.spec.chart
                (source f.helm sr hr.metadata.namespace))
        | inl k ↦
            rw (e, refs_from_release, k) (inline_refs-IsComplete hr.metadata.name n hr.spec.chart)
      ]
    ]

releases_refs-IsComplete :
    (f : FluxCd) (hrs : List HelmRelease) → All IsComplete (releases_refs f hrs)
unfolding releases_refs
releases_refs-IsComplete f [] = tt
releases_refs-IsComplete f (hr ∷ hrs) = elim (Bool-cases (is_nil hr.metadata.name)) [
  | inl e ↦ rw e (releases_refs-IsComplete f hrs)
  | inr e ↦ rw e (
      All-append IsComplete (refs_from_release f hr) (releases_refs f hrs)
        (refs_from_release-IsComplete f hr (λ q. named (hr.metadata.name) e q))
        (releases_refs-IsComplete f hrs))
]
  where
    named : (s : Text) → is_nil s ≡ false → s ≢ []
    named s e = λ q. cc (e, q)

-- Every reference extracted from HelmReleases has the name of a chart, a version and the name of a
-- release, none of them empty, and is no final stage of a build.
pub extract_releases-IsComplete :
    (y : YamlLibrary) (f : FluxCd) (content : Text) → All IsComplete (extract_releases y f content)
unfolding extract_releases
extract_releases-IsComplete y f content =
    releases_refs-IsComplete f (decode_all y y.release content)
