-- ===== src/Registry/Charts.antt =====
-- internal/registry/charts.go and scope.go: the newest version of a chart, on what a registry lists.
-- Semantic versions are the library's: `SemverLibrary` is a parameter, and so are `quoted`, Go's
-- `%q`, and what the registry answers for an index and for a list of tags.
pub mod Eligible
pub mod Resolve
pub mod Update
use yk_update_checker.Errkind.{
  Failure, Kind, wrap, unsupported, not_found, invalid_version, plain, wrapped,
}
use yk_update_checker.Prelude.{
  none, some, Option, List, ◌++◌, Bool, ℕ, [], ◌&&◌, ◌==◌, if◌then◌else◌, map, ◌∷◌, true, false,
  ◌||◌, not,
}
use yk_update_checker.Registry.Bump.{Bump, bump_of}
use yk_update_checker.Registry.Cache.{Fetched, value, error}
use yk_update_checker.Registry.Scope.{Scope}
use yk_update_checker.Text.{Text, codes, text_eq, is_nil, to_lower}
use yk_update_checker.Text.Cut.{trim_suffix}

-- What the program reads of a `semver.Version`.
pub record Version : Type 0 where
  pub major : ℕ
  pub minor : ℕ
  pub patch : ℕ
  pub prerelease : Text
  pub original : Text

-- `NewVersion`, `GreaterThan`, `sort.Sort` on a `Collection`, `NewConstraint` with `Check`.
pub record SemverLibrary : Type 0 where
  pub parse : Text → Option Version
  pub greater_than : Version → Version → Bool
  pub sorted : List Version → List Version
  pub constraint : Text → Fetched (Version → Bool)

-- What a registry lists for a chart: `helmIndexEntry`, `helmIndex`.
pub record HelmIndexEntry : Type 0 where
  pub version : Text

pub record HelmIndex : Type 0 where
  pub entries : Text → Option (List HelmIndexEntry)

abbrev pub is_stable : Version → Bool
is_stable v = is_nil v.prerelease

-- The switch over the scope in `latestFromTags`.
abbrev pub in_scope : Scope → Version → Version → Bool
in_scope Scope.patch current v = v.major == current.major && v.minor == current.minor
in_scope Scope.minor current v = v.major == current.major
in_scope Scope.all current v = true
in_scope Scope.major current v = true

abbrev pub last : List Version → Option Version
last [] = none
last (v ∷ []) = some v
last (v ∷ w ∷ vs) = last (w ∷ vs)

abbrev pub original_of : Option Version → Text
original_of none = []
original_of (some v) = v.original

module _ (lib : SemverLibrary) where
  unfoldable pub is_eligible : Version → Scope → Version → Bool
  is_eligible current scope v =
      is_stable v && lib.greater_than v current && in_scope scope current v

  abbrev pub add_candidate : Version → Scope → Option Version → List Version → List Version
  add_candidate current scope none vs = vs
  add_candidate current scope (some v) vs = if is_eligible current scope v then v ∷ vs else vs

  -- The loop of `latestFromTags`
  unfoldable pub eligible_versions : Version → List Text → Scope → List Version
  unfolding is_eligible
  eligible_versions current [] scope = []
  eligible_versions current (t ∷ tags) scope =
      add_candidate current scope (lib.parse t) (eligible_versions current tags scope)

  -- `latestFromTags`
  unfoldable pub latest_from_tags : Version → List Text → Scope → Text
  unfolding eligible_versions
  latest_from_tags current tags scope =
      original_of (last (lib.sorted (eligible_versions current tags scope)))

  -- One round of the loop of `resolveCurrent`.
  unfoldable pub better : (Version → Bool) → Option Version → Option Version → Option Version
  better check best none = best
  better check none (some v) = if is_stable v && check v then some v else none
  better check (some b) (some v) =
      if is_stable v && check v && lib.greater_than v b then some v else some b

  unfoldable pub best_match : (Version → Bool) → Option Version → List Text → Option Version
  unfolding better
  best_match check best [] = best
  best_match check best (t ∷ tags) = best_match check (better check best (lib.parse t)) tags

  -- `IsNewerChart`
  unfoldable pub is_newer_chart : Text → Text → Bool
  unfolding text_eq
  is_newer_chart latest current = if is_nil latest then false else elim (lib.parse latest) [
    | none ↦ not (text_eq latest current)
    | some l ↦ elim (lib.parse current) [
      | none ↦ not (text_eq latest current)
      | some c ↦ lib.greater_than l c
    ]
  ]

  -- `ChartScope`; `none` is the empty text.
  unfoldable pub chart_scope : Text → Text → Option Bump
  unfolding text_eq bump_of
  chart_scope current latest =
      if is_nil latest || text_eq current latest
      then none
      else some (elim (lib.parse latest) [
        | none ↦ Bump.unknown
        | some l ↦ elim (lib.parse current) [
          | none ↦ Bump.unknown
          | some c ↦ bump_of l.major c.major l.minor c.minor
        ]
      ])

  module _ (quoted : Text → Text) where
    abbrev pub no_match : Text → Failure
    no_match current =
        wrap invalid_version
          (plain (codes "no registry version matches constraint " ++ quoted current))

    abbrev pub found_best : Text → Option Version → Fetched Version
    found_best current none = error (no_match current)
    found_best current (some v) = value v

    -- `resolveCurrent`
    unfoldable pub resolve_range : Text → Fetched (Version → Bool) → List Text → Fetched Version
    unfolding best_match wrap
    resolve_range current (error e) tags = error (
        wrap invalid_version
          (wrapped (codes "invalid current version " ++ quoted current ++ codes ": ") e))
    resolve_range current (value check) tags = found_best current (best_match check none tags)

    unfoldable pub resolve_current : Text → List Text → Fetched Version
    unfolding resolve_range
    resolve_current current tags = elim (lib.parse current) [
      | some v ↦ value v
      | none ↦ resolve_range current (lib.constraint current) tags
    ]

    abbrev pub latest_of : Fetched Version → List Text → Scope → Fetched Text
    latest_of (error e) tags scope = error e
    latest_of (value current) tags scope = value (latest_from_tags current tags scope)

    abbrev pub entry_versions : List HelmIndexEntry → List Text
    entry_versions entries = map (λ (e : HelmIndexEntry). e.version) entries

    -- `latestHTTP` on the entries of the index, and `latestOCI` on the tags.
    unfoldable pub latest_http : Text → Text → Text → Scope → Fetched HelmIndex → Fetched Text
    unfolding resolve_current latest_from_tags wrap
    latest_http repo_url chart current scope (error e) = error e
    latest_http repo_url chart current scope (value index) = elim (index.entries chart) [
      | none ↦ error (
          wrap not_found (
            plain (
              codes "chart "
              ++ quoted chart
              ++ codes " not found in index at "
              ++ trim_suffix repo_url (codes "/"))))
      | some entries ↦
          let tags = entry_versions entries in latest_of (resolve_current current tags) tags scope
    ]

    unfoldable pub latest_oci : Text → Scope → Fetched (List Text) → Fetched Text
    unfolding resolve_current latest_from_tags
    latest_oci current scope (error e) = error e
    latest_oci current scope (value tags) = latest_of (resolve_current current tags) tags scope

    -- `latest`, with what the registry answers for the index of a repository and for the tags of a
    -- reference.
    module _ (get_index : Text → Text → Fetched HelmIndex)
        (get_tags : Text → Fetched (List Text)) where
      unfoldable pub latest : Text → Text → Text → Text → Scope → Fetched Text
      unfolding latest_http latest_oci wrap to_lower text_eq
      latest protocol repo_url chart current scope =
          let p = to_lower protocol in
          if is_nil repo_url
          then error (
              wrap unsupported (plain (codes "repository URL is empty for chart " ++ quoted chart)))
          else if is_nil current
          then error (
              wrap invalid_version
                (plain (codes "current version is empty for chart " ++ quoted chart)))
          else if text_eq p (codes "https") || text_eq p (codes "http")
          then latest_http repo_url chart current scope (get_index p repo_url)
          else if text_eq p (codes "oci")
          then latest_oci current scope
              (get_tags (trim_suffix repo_url (codes "/") ++ codes "/" ++ chart))
          else error (wrap unsupported (plain (codes "unsupported protocol: " ++ protocol)))
