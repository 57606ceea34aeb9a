-- ===== src/Report/Types.antt =====
-- internal/report/types.go and internal/scan/types.go: what a scan reports. A time is a number of
-- seconds, which is what the stored form keeps of it.
use yk_update_checker.Prelude.{
  Option, ◌++◌, ℕ, ◌∷◌, Bool, List, none, ◌==◌, [], if◌then◌else◌, take, ◌||◌, map,
}
use native.Mathlib.Decide.{ℕ_discrete}
use yk_update_checker.Text.{Text, codes, to_lower, trim, is_lower, is_digit, join}
use yk_update_checker.Errkind.{Kind}

abbrev pub Time : Type 0
Time = ℕ

pub record SkippedTag : Type 0 where
  pub tag : Text
  pub reasons : List Text

-- `scan.Result`
pub record ScanResult : Type 0 where
  pub source : Text
  pub path : Text
  pub chart : Text
  pub dependency : Text
  pub type_ : Text
  pub manifest_kind : Text
  pub protocol : Text
  pub current_version : Text
  pub latest_version : Text
  pub scope : Text
  pub update_available : Bool
  pub check_error : Text
  pub check_error_kind : Option Kind
  pub checked_at : Time
  pub tag_kind : Text
  pub current_resolved : Text
  pub final_stage : Bool
  pub pinned_digest : Text
  pub image_digest : Text
  pub digest_changed : Bool
  pub note : Text
  pub skipped : List SkippedTag
  pub current_pushed_at : Option Time
  pub latest_pushed_at : Option Time

-- The labels that the package reads or writes; `none` is a missing key.
pub record Labels : Type 0 where
  pub repo_id : Option Text
  pub dep_type : Option Text
  pub outdated : Option Bool
  pub instance_ : Option Text

abbrev pub no_labels : Labels
no_labels = record { repo_id = none; dep_type = none; outdated = none; instance_ = none }

-- `DepStatus`
pub record DepStatus : Type 0 where
  pub result : ScanResult
  pub outdated_since : Option Time
  pub latest_seen_at : Option Time

pub record Dependency : Type 0 where
  pub name : Text
  pub labels : Labels
  pub status : DepStatus

pub data Phase : Type 0 where
  succeeded failed unset : Phase

-- The kind is one of those of internal/errkind. A stored report may hold another text, if someone
-- else wrote it; the metrics count that as `other`, and so it stands for it here.
pub record ErrorInfo : Type 0 where
  pub kind : Kind
  pub message : Text

pub record Counts : Type 0 where
  pub checked : ℕ
  pub outdated : ℕ
  pub failed_ : ℕ

abbrev pub no_counts : Counts
no_counts = record { checked = 0; outdated = 0; failed_ = 0 }

pub record Run : Type 0 where
  pub time : Time
  pub phase : Phase
  pub counts : Counts
  pub error_kind : Option Kind

pub record RepoStatus : Type 0 where
  pub repo : Text
  pub phase : Phase
  pub last_scan_time : Time
  pub last_success_time : Option Time
  pub error : Option ErrorInfo
  pub counts : Counts
  pub history : List Run

pub record RepositoryScan : Type 0 where
  pub name : Text
  pub labels : Labels
  pub status : RepoStatus

pub Status-discrete : Discrete (Labels × DepStatus)
Status-discrete = hlevel ℕ_discrete

-- `dnsName`: letters and digits in lower case, a dash for the rest, cut and trimmed.
dns_rune : ℕ → ℕ
dns_rune c = if is_lower c || is_digit c then c else b'-'

or_x : Text → Text
or_x [] = codes "x"
or_x (c ∷ s) = c ∷ s

unfoldable pub dns_name : Text → ℕ → Text
unfolding to_lower dns_rune or_x
dns_name s max_len = or_x (trim (λ c. c == b'-') (take max_len (map dns_rune (to_lower s))))

-- The hash is a parameter: the first 16 hexadecimal digits of SHA-256.
module _ (short_hash : Text → Text) where
  abbrev pub repo_id : Text → Text
  repo_id repo = short_hash repo

  unfoldable pub repository_scan_name : Text → Text
  repository_scan_name repo = dns_name repo 46 ++ codes "-" ++ short_hash repo

  abbrev identity : ScanResult → Text
  identity r = join (0 ∷ []) (
      r.source ∷ r.type_ ∷ r.path ∷ r.chart ∷ r.dependency ∷ r.current_version ∷ r.pinned_digest
      ∷ [])

  unfoldable pub dependency_name : ScanResult → Text
  dependency_name r =
      dns_name r.source 30
      ++ codes "-"
      ++ dns_name r.type_ 10
      ++ codes "-"
      ++ short_hash (identity r)
