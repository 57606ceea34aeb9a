-- ===== src/Tests/NewerTests.antt =====
-- The choice of the newest tag by version: internal/registry/image.go.
use yk_update_checker.Registry.Order.{
  comparable_shapes, is_prerelease, tag_scope_ok, compare_core, compare_from,
}
use yk_update_checker.Registry.Scope.{Scope}
use yk_update_checker.Registry.Candidates.{
  ranked_candidates, width_probe, sort_stable, collect_candidates, ranks_before,
}
use yk_update_checker.Registry.Tag.{
  TagShape, classify_tag, sha_like, form_multi, form_single, form_last, numeric_kind,
  parse_int_groups,
}
use yk_update_checker.Registry.Newer.Laws.{IsNewest, compare_versions-IsNewest, tags_listed}
use yk_update_checker.Registry.Newer.{compare_versions, Choice, choose}
use yk_update_checker.Text.{Text, codes}
use yk_update_checker.Registry.Verify.{Baseline, ImageMeta, no_meta, no_siblings, skips_majors}
use yk_update_checker.Prelude.{◌≡◌, ℕ, true, some, Option, List, ◌∷◌, [], Bool, none, inr, refl}
use yk_update_checker.Registry.Walk.{Page, page, Limits, image_tags, search_anchors}

runs : Unit {0}
unfolding compare_versions classify_tag sha_like form_multi form_single form_last numeric_kind
    parse_int_groups image_tags search_anchors ranked_candidates choose width_probe sort_stable
    collect_candidates comparable_shapes is_prerelease tag_scope_ok compare_core compare_from
    ranks_before
runs = tt

abbrev base : Baseline
base = record { cur = classify_tag (codes "v1.2.3"); meta = no_meta; dates = []; signed = none }

abbrev few : Limits
few = record { tag_page_size = 2; max_pages = 3; page_budget = 4 }

abbrev answers : ℕ → Text → Text → Page
answers left anchor next =
    page
      (codes "v1.2.3" ∷ codes "v9.0.0" ∷ codes "v1.3.0" ∷ codes "v1.3.1" ∷ codes "v1.4.0-rc1" ∷ [])
      []

abbrev no_answer : Text → Option ImageMeta
no_answer ref = none

abbrev no_page : TagShape → List Text
no_page cand = []

abbrev no_signatures : Text → Option Bool
no_signatures digest = none

abbrev answer : Choice
answer = record {
  latest = some (codes "v1.3.1");
  skipped = record { tag = codes "v9.0.0"; reasons = no_siblings ∷ skips_majors 2 8 ∷ [] } ∷ [];
}

newest_run :
    compare_versions 0 no_answer no_page no_signatures few answers true 3 Scope.all
      (codes "v1.2.3")
      base
    ≡ inr answer
unfolding runs
newest_run = refl

compare_versions-IsNewest_example :
    ∥ IsNewest 0 no_answer no_page no_signatures true Scope.all base
      (tags_listed 0 no_answer no_page no_signatures few answers (codes "v1.2.3") base)
      (codes "v1.3.1") ∥₁
compare_versions-IsNewest_example =
    compare_versions-IsNewest 0 no_answer no_page no_signatures few answers true 3 Scope.all
      (codes "v1.2.3") base answer (codes "v1.3.1") newest_run refl
