-- ===== src/Tests/BuildTests.antt =====
-- Stages of builds and releases of charts: internal/extractor/dockerfile.go and fluxcd.go.
use yk_update_checker.Extractor.Ref.{Ref}
use yk_update_checker.Prelude.{
  some, none, refl, true, false, map, Memᴰ, [], ◌∷◌, ℕ, ◌≡◌, if◌then◌else◌, ◌++◌, ◌==◌,
}
use yk_update_checker.Extractor.Dockerfile.{
  extract_dockerfile, parse_froms, checkable, BuildStage, stages_of, stage_refs, checked_ref,
  stage_ref, stage_of, stage_label, final_stage_from, from_arguments, from_words, note_alias,
  split_logical_lines, unix_lines, join_lines,
}
use yk_update_checker.Extractor.Dockerfile.Final.{EndsWith, extract_dockerfile-final}
use yk_update_checker.Extractor.Dockerfile.Stages.{Origin, NotAliasIn, extract_dockerfile-Origin}
use yk_update_checker.Extractor.ImageRef.{
  parse_image_ref, split_image_ref, with_name, canonical_repository, cut_tag, has_placeholder,
}
use yk_update_checker.Extractor.Flux.{prepare_sources, refs_from_release, new_flux_cd, entry_key}
use yk_update_checker.Extractor.Flux.Sources.{Declares, helm_kind}
use yk_update_checker.Extractor.Flux.Releases.{
  IsRelease, NamesRepository, refs_from_release-own, key_of,
}
use yk_update_checker.Extractor.Manifests.{FluxSource, HelmRelease, CrossNamespaceRef, FluxOciRef}
use yk_update_checker.Extractor.Url.{parse_protocol}
use yk_update_checker.Extractor.Paths.{base_name}
use yk_update_checker.Text.Cut.{cut, cut_last, drop}
use yk_update_checker.Text.Decimal.{itoa}
use yk_update_checker.Text.{
  Text, codes, span, text_eq, has_infix, has_prefix, contains, to_lower, fields, split, text_eq_iff,
}

runs : Unit {0}
unfolding extract_dockerfile parse_froms stages_of stage_refs checked_ref stage_ref stage_of
    stage_label checkable final_stage_from from_arguments from_words note_alias split_logical_lines
    unix_lines join_lines parse_image_ref split_image_ref with_name canonical_repository cut_tag cut
    cut_last span text_eq has_infix has_prefix has_placeholder contains to_lower fields split drop
    itoa base_name
runs = tt

abbrev build_file : Text
build_file =
    codes "FROM golang:1.24 AS Build|RUN make|FROM alpine:3.20|COPY --from=build /a /a|FROM build"

abbrev newline : ℕ → ℕ
newline c = if c == b'|' then 10 else c

abbrev content : Text
content = map newline build_file

abbrev golang : BuildStage
golang = record { image = codes "golang:1.24"; alias = codes "Build"; alias_of_earlier = false }

abbrev alpine : BuildStage
alpine = record { image = codes "alpine:3.20"; alias = []; alias_of_earlier = false }

abbrev copied : BuildStage
copied = record { image = codes "build"; alias = []; alias_of_earlier = true }

stages : parse_froms content ≡ (golang ∷ []) ++ alpine ∷ copied ∷ []
unfolding runs
stages = refl

alpine-checkable : checkable alpine ≡ true
unfolding runs
alpine-checkable = refl

copied_unchecked : checkable copied ≡ false
unfolding runs
copied_unchecked = refl

extract_dockerfile-final_example :
    EndsWith
      (parse_image_ref (codes "alpine:3.20"))
      (extract_dockerfile (codes "app/Dockerfile") content)
extract_dockerfile-final_example =
    extract_dockerfile-final (codes "app/Dockerfile") content (golang ∷ []) alpine (copied ∷ [])
      stages alpine-checkable (copied_unchecked, tt)

abbrev golang_ref : Ref
golang_ref = record {
  name = codes "golang";
  chart = codes "Dockerfile/Build";
  protocol = codes "image";
  repository = codes "index.docker.io/library/golang";
  current_version = codes "1.24";
  digest = [];
  kind = [];
  final_stage = false;
}

abbrev alpine_ref : Ref
alpine_ref = record {
  name = codes "alpine";
  chart = codes "Dockerfile/stage2";
  protocol = codes "image";
  repository = codes "index.docker.io/library/alpine";
  current_version = codes "3.20";
  digest = [];
  kind = [];
  final_stage = true;
}

build_refs : extract_dockerfile (codes "app/Dockerfile") content ≡ golang_ref ∷ alpine_ref ∷ []
unfolding runs
build_refs = refl

golang_in : Memᴰ golang_ref (extract_dockerfile (codes "app/Dockerfile") content)
golang_in = rw build_refs (Memᴰ.head refl)

extract_dockerfile-Origin_example :
    (o : Origin (base_name (codes "app/Dockerfile")) 0 (parse_froms content) golang_ref)
    × NotAliasIn o.stage o.front
extract_dockerfile-Origin_example =
    extract_dockerfile-Origin (codes "app/Dockerfile") content golang_in

abbrev no_ref : FluxOciRef
no_ref = record { tag = []; sem_ver = [] }

abbrev bitnami : FluxSource
bitnami = record {
  kind = codes "HelmRepository";
  metadata = record { name = codes "bitnami"; namespace = codes "flux" };
  spec = record { url = codes "https://charts.bitnami.com"; ref = no_ref };
}

abbrev other_source : FluxSource
other_source = record {
  kind = codes "HelmRepository";
  metadata = record { name = codes "bitnami"; namespace = codes "apps" };
  spec = record { url = codes "https://example.com"; ref = no_ref };
}

abbrev to_bitnami : CrossNamespaceRef
to_bitnami = record {
  kind = codes "HelmRepository";
  name = codes "bitnami";
  namespace = codes "flux";
}

abbrev nginx : HelmRelease
nginx = record {
  metadata = record { name = codes "web"; namespace = codes "apps" };
  spec = record {
    chart_ref = none;
    chart = record {
      chart = codes "nginx";
      version = codes "15.0.0";
      repo_url = [];
      source_ref = some to_bitnami;
    };
  };
}

nginx_names : NamesRepository nginx to_bitnami
unfolding text_eq
nginx_names = record {
  no_chart_ref = refl;
  source_ref = refl;
  has_chart = λ e. cc e;
  has_version = λ e. cc e;
}

bitnami-Declares : Declares helm_kind (key_of to_bitnami nginx) bitnami
unfolding text_eq
bitnami-Declares = (refl, refl)

other_key : text_eq (entry_key other_source) (key_of to_bitnami nginx) ≡ false
unfolding text_eq
other_key = refl

other_undeclared : ¬ Declares helm_kind (key_of to_bitnami nginx) other_source
other_undeclared = λ d.
    let same = (text_eq_iff (entry_key other_source) (key_of to_bitnami nginx)).1 (d.1) in
    cc (same, other_key)

refs_from_release-own_example :
    IsRelease nginx
      (codes "nginx")
      (codes "15.0.0")
      (parse_protocol (codes "https://charts.bitnami.com"))
      (refs_from_release (prepare_sources new_flux_cd (bitnami ∷ other_source ∷ [])) nginx)
refs_from_release-own_example =
    refs_from_release-own nginx to_bitnami nginx_names new_flux_cd [] bitnami (other_source ∷ [])
      bitnami-Declares (other_undeclared, tt)
