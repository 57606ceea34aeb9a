-- ===== src/Scan/Checks.antt =====
-- internal/scan/runner.go: from the references of a repository's files to their results. The clock,
-- the registry's answers and the path of a file relative to the checkout are parameters.
pub mod Sound
pub mod Labels
pub mod Drift
use yk_update_checker.Errkind.{message, kind_of}
use yk_update_checker.Extractor.Ref.{Ref, protocol_image}
use yk_update_checker.Prelude.{
  none, some, List, [], if◌then◌else◌, Option, false, ◌++◌, ◌∷◌, Bool, not, ◌&&◌,
}
use yk_update_checker.Registry.Bump.{Bump, image_scope}
use yk_update_checker.Registry.Cache.{Fetched, value, error}
use yk_update_checker.Registry.Image.{ImageInfo}
use yk_update_checker.Registry.Charts.{SemverLibrary, chart_scope, is_newer_chart}
use yk_update_checker.Registry.Tag.{
  TagKind, semver, calver, date, build, floating, opaque, unknown, classify_tag,
}
use yk_update_checker.Report.Types.{ScanResult, SkippedTag, Time}
use yk_update_checker.Text.{Text, codes, is_nil, text_eq}
use yk_update_checker.Text.Cut.{cut_last}

-- The values of `TagKind` and of a bump.
abbrev pub kind_text : TagKind → Text
kind_text semver = codes "semver"
kind_text calver = codes "calver"
kind_text date = codes "date"
kind_text build = codes "build"
kind_text floating = codes "floating"
kind_text opaque = codes "opaque"
kind_text unknown = []

abbrev pub bump_text : Option Bump → Text
bump_text none = []
bump_text (some Bump.major) = codes "major"
bump_text (some Bump.minor) = codes "minor"
bump_text (some Bump.patch) = codes "patch"
bump_text (some Bump.unknown) = codes "unknown"

-- `pendingCheck`
pub record PendingCheck : Type 0 where
  pub source : Text
  pub path : Text
  pub chart : Text
  pub ex_type : Text
  pub ref : Ref

-- `label`
abbrev in_directory : Text → Option (Text × Text) → Text
in_directory chart none = chart
in_directory chart (some (dir, file)) = dir ++ codes "/" ++ chart

unfoldable pub label : PendingCheck → Text
unfolding text_eq cut_last
label p =
    if is_nil p.ref.chart
    then p.chart
    else if text_eq p.ex_type (codes "dockerfile")
    then in_directory p.ref.chart (cut_last b'/' p.path)
    else p.ref.chart

-- `newResult`
unfoldable pub new_result : Time → PendingCheck → Text → ScanResult
new_result now p chart = record {
  source = p.source;
  path = p.path;
  chart = chart;
  dependency = p.ref.name;
  type_ = p.ex_type;
  manifest_kind = p.ref.kind;
  protocol = p.ref.protocol;
  current_version = p.ref.current_version;
  pinned_digest = p.ref.digest;
  final_stage = p.ref.final_stage;
  checked_at = now;
  latest_version = [];
  scope = [];
  update_available = false;
  check_error = [];
  check_error_kind = none;
  tag_kind = [];
  current_resolved = [];
  image_digest = [];
  digest_changed = false;
  note = [];
  skipped = [];
  current_pushed_at = none;
  latest_pushed_at = none;
}

abbrev pub checked_version : ImageInfo → Text → Text
checked_version info current = if is_nil info.resolved then current else info.resolved

-- A reference pinned to a digest that its tag no longer serves.
unfoldable pub has_drifted : Ref → ImageInfo → Bool
unfolding text_eq
has_drifted ref info =
    not (is_nil ref.digest) && not (is_nil info.digest) && not (text_eq ref.digest info.digest)

module _ (lib : SemverLibrary) (now : Time) where
  -- `checkChart`, with what `registry.Latest` returns
  unfoldable pub check_chart : PendingCheck → Text → Fetched Text → ScanResult
  unfolding new_result message kind_of chart_scope is_newer_chart
  check_chart p chart (error e) = record (new_result now p chart) {
    check_error = message e;
    check_error_kind = some (kind_of e);
  }
  check_chart p chart (value latest) = record (new_result now p chart) {
    latest_version = latest;
    scope = bump_text (chart_scope lib p.ref.current_version latest);
    update_available = is_newer_chart lib latest p.ref.current_version;
  }

  -- `checkImage`, with what `LatestImage` returns
  unfoldable pub check_image : PendingCheck → Text → Fetched ImageInfo → ScanResult
  unfolding new_result message kind_of image_scope has_drifted classify_tag
  check_image p chart (error e) = record (new_result now p chart) {
    tag_kind = kind_text (classify_tag p.ref.current_version).kind;
    check_error = message e;
    check_error_kind = some (kind_of e);
  }
  check_image p chart (value info) = record (new_result now p chart) {
    tag_kind = kind_text info.kind;
    latest_version = info.latest;
    current_resolved = info.resolved;
    image_digest = info.digest;
    note = info.note;
    skipped = info.skipped;
    current_pushed_at = info.current_pushed;
    latest_pushed_at = info.latest_pushed;
    update_available = not (is_nil info.latest);
    scope = bump_text (image_scope (checked_version info p.ref.current_version) info.latest);
    digest_changed = has_drifted p.ref info;
  }

  -- The body of `checkAll`, with the answers of the registry for a reference.
  module _ (latest : Ref → Fetched Text) (latest_image : Ref → Fetched ImageInfo) where
    unfoldable pub check : PendingCheck → ScanResult
    unfolding text_eq label check_image check_chart
    check p =
        if text_eq p.ref.protocol protocol_image
        then check_image p (label p) (latest_image p.ref)
        else check_chart p (label p) (latest p.ref)

-- `File`, and an implementation of `Extractor`: `none` is an error.
pub record File : Type 0 where
  pub path : Text
  pub content : Text

pub record Extractor : Type 0 where
  pub type_ : Text
  pub matches : File → Bool
  pub extract : File → Option (Text × List Ref)

-- `extractChecks`; `relative` is the path in the checkout.
module _ (source : Text) (relative : Text → Text) where
  unfoldable pub pending_of : File → Text → Text → List Ref → List PendingCheck
  pending_of f chart type_ [] = []
  pending_of f chart type_ (r ∷ refs) =
      record { source = source; path = relative f.path; chart = chart; ex_type = type_; ref = r }
      ∷ pending_of f chart type_ refs

  abbrev pub pending_extracted : File → Text → Option (Text × List Ref) → List PendingCheck
  pending_extracted f type_ none = []
  pending_extracted f type_ (some (chart, refs)) = pending_of f chart type_ refs

  unfoldable pub pending_in : File → List Extractor → List PendingCheck
  unfolding pending_of
  pending_in f [] = []
  pending_in f (ex ∷ exs) =
      (if not (ex.matches f) then [] else pending_extracted f ex.type_ (ex.extract f))
      ++ pending_in f exs

  unfoldable pub extract_checks : List File → List Extractor → List PendingCheck
  unfolding pending_in
  extract_checks [] exs = []
  extract_checks (f ∷ files) exs = pending_in f exs ++ extract_checks files exs
