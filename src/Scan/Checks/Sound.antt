-- ===== src/Scan/Checks/Sound.antt =====
-- internal/scan/runner.go: a result says the same in its fields, whatever was checked.
use yk_update_checker.Prelude.{
  Bool-cases, not, ◌≡◌, true, inl, ◌≢◌, [], inr, none, ◌∷◌, false, refl,
}
use yk_update_checker.Scan.Checks.{
  PendingCheck, check, check_image, check_chart, label, ImageInfo, new_result,
}
use yk_update_checker.Registry.Cache.{Fetched, value, error}
use yk_update_checker.Registry.Charts.{SemverLibrary, is_newer_chart}
use yk_update_checker.Report.Types.{ScanResult, Time}
use yk_update_checker.Extractor.Ref.{Ref, protocol_image}
use yk_update_checker.Text.{Text, text_eq, is_nil}

-- A result that reports an update names its version, one that reports an error names no version, and
-- each names the reference it is about.
pub record IsSound (p : PendingCheck) (r : ScanResult) : Type 0 where
  pub same_place :
      ◌≡◌ {A = Text × Text × Text} (r.source, r.path, r.chart) (p.source, p.path, label p)
  pub same_ref :
      ◌≡◌ {A = Text × Text × Text}
        (r.dependency, r.current_version, r.pinned_digest)
        (p.ref.name, p.ref.current_version, p.ref.digest)
  pub update_named :
      r.update_available ≡ true → (r.latest_version ≢ []) × (r.check_error_kind ≡ none)
  pub failed_unnamed :
      r.check_error_kind ≢ none
      → (r.latest_version ≡ [])
        × (r.update_available ≡ false)
        × (r.scope ≡ [])
        × (r.digest_changed ≡ false)

newer_named :
    (lib : SemverLibrary) (latest current : Text)
    → is_newer_chart lib latest current ≡ true
    → latest ≢ []
unfolding is_newer_chart
newer_named lib [] current h = absurd (cc h)
newer_named lib (c ∷ s) current h = λ e. cc e

nonempty : (s : Text) → not (is_nil s) ≡ true → s ≢ []
nonempty [] h = absurd (cc h)
nonempty (c ∷ s) h = λ e. cc e

module _ (lib : SemverLibrary) (now : Time) (p : PendingCheck) where
  check_chart-IsSound : (o : Fetched Text) → IsSound p (check_chart lib now p (label p) o)
  unfolding check_chart new_result
  check_chart-IsSound (error e) = record {
    same_place = refl;
    same_ref = refl;
    update_named = λ h. absurd (cc h);
    failed_unnamed = λ h. (refl, refl, refl, refl);
  }
  check_chart-IsSound (value latest) = record {
    same_place = refl;
    same_ref = refl;
    update_named = λ h. (newer_named lib latest p.ref.current_version h, refl);
    failed_unnamed = λ h. absurd (h refl);
  }

  check_image-IsSound : (o : Fetched ImageInfo) → IsSound p (check_image lib now p (label p) o)
  unfolding check_image new_result
  check_image-IsSound (error e) = record {
    same_place = refl;
    same_ref = refl;
    update_named = λ h. absurd (cc h);
    failed_unnamed = λ h. (refl, refl, refl, refl);
  }
  check_image-IsSound (value info) = record {
    same_place = refl;
    same_ref = refl;
    update_named = λ h. (nonempty info.latest h, refl);
    failed_unnamed = λ h. absurd (h refl);
  }

-- The result of a check, of a chart or an image, is about the reference checked: it has its source,
-- path, label, name, version and digest. It reports an update only with the version of the update
-- and no error, and an error only with no version, no update, no bump and no change of digest.
pub check-IsSound :
    (lib : SemverLibrary) (now : Time) (latest : Ref → Fetched Text)
    (latest_image : Ref → Fetched ImageInfo) (p : PendingCheck)
    → IsSound p (check lib now latest latest_image p)
unfolding check
check-IsSound lib now latest latest_image p =
    elim (Bool-cases (text_eq p.ref.protocol protocol_image)) [
      | inl e ↦ rw e (check_image-IsSound lib now p (latest_image p.ref))
      | inr e ↦ rw e (check_chart-IsSound lib now p (latest p.ref))
    ]
