-- ===== src/Tests/SearchTests.antt =====
-- The cache, the walk through a listing and the verification of candidates: internal/registry.
use yk_update_checker.Text.Distinct.{IsDistinct}
use yk_update_checker.Prelude.{
  take, Option, [], List, ◌∷◌, ℕ, ◌≡◌, ◌≤◌, Bool, some, false, true, none, refl, length, ◌*◌,
}
use yk_update_checker.Text.{Text, codes}
use yk_update_checker.Registry.Tag.{
  TagShape, classify_tag, sha_like, form_multi, form_single, form_last, numeric_kind,
  parse_int_groups,
}
use yk_update_checker.Registry.Cache.{Fetched, value, error, get_or_do, fresh, is_interrupted}
use yk_update_checker.Registry.Cache.Laws.{look_up_all, get_or_do-get_or_do}
use yk_update_checker.Registry.Walk.{Page, page, Limits, image_tags}
use yk_update_checker.Registry.Walk.Laws.{image_tags_bounds}
use yk_update_checker.Registry.Verify.{
  ImageMeta, Baseline, no_meta, verify_candidates, candidate_signals, major_jump, own_pre_release,
}
use yk_update_checker.Registry.Verify.Laws.{Verdict, verify_candidates-Verdict}
use yk_update_checker.Registry.Order.{is_prerelease, group}
use yk_update_checker.Errkind.{plain}

runs : Unit {0}
unfolding classify_tag sha_like form_multi form_single form_last numeric_kind parse_int_groups
    get_or_do fresh
runs = tt

abbrev empty_store : List (Text × Fetched ℕ)
empty_store = []

abbrev failing : Fetched ℕ
failing = error (plain (codes "refused"))

first_answer : is_interrupted (get_or_do (codes "tags") empty_store (codes "a") failing).0 ≡ false
unfolding runs
first_answer = refl

get_or_do-get_or_do_example :
    get_or_do
      (codes "tags")
      (look_up_all
        (codes "tags")
        (get_or_do (codes "tags") empty_store (codes "a") failing).1
        ((codes "b", value 7) ∷ []))
      (codes "a")
      (value 5)
    ≡ (
      (get_or_do (codes "tags") empty_store (codes "a") failing).0,
      look_up_all
          (codes "tags")
          (get_or_do (codes "tags") empty_store (codes "a") failing).1
          ((codes "b", value 7) ∷ []),
      false,
    )
get_or_do-get_or_do_example =
    get_or_do-get_or_do (codes "tags") empty_store ((codes "b", value 7) ∷ []) (codes "a") failing
      (value 5) first_answer

nothing_there : fresh empty_store (codes "tags|a") ≡ none
unfolding runs
nothing_there = refl

abbrev few : Limits
few = record { tag_page_size = 2; max_pages = 3; page_budget = 4 }

abbrev answers : ℕ → Text → Text → Page
answers left anchor next = page (codes "v1.2" ∷ codes "v1.3" ∷ []) (codes "more")

image_tags_bounds_example :
    let z = image_tags few answers (codes "v1.2" ∷ []) in
    IsDistinct z.state.out
    × (length z.state.requests ≤ 4)
    × (length z.state.requests ≤ 3 * length z.tried)
    × (length z.tried ≤ 2 * 1)
image_tags_bounds_example = image_tags_bounds few answers (codes "v1.2" ∷ [])

abbrev base : Baseline
base = record { cur = classify_tag (codes "v1.2.3"); meta = no_meta; dates = []; signed = none }

abbrev no_answer : Text → Option ImageMeta
no_answer ref = none

abbrev no_page : TagShape → List Text
no_page cand = []

abbrev no_signatures : Text → Option Bool
no_signatures digest = none

abbrev listed : List Text
listed = codes "v1.2.3" ∷ codes "v9.0.0" ∷ codes "v1.3.0" ∷ codes "v1.3.1" ∷ []

abbrev ranked : List TagShape
ranked = classify_tag (codes "v9.0.0") ∷ classify_tag (codes "v1.3.1") ∷ []

verify_candidates-Verdict_example :
    let found = verify_candidates 0 no_answer no_page no_signatures 3 base listed ranked in
    Verdict 0 no_answer no_page no_signatures base listed (take 3 ranked) found.0 found.1
verify_candidates-Verdict_example =
    verify_candidates-Verdict 0 no_answer no_page no_signatures 3 base listed ranked

verify_run :
    (verify_candidates 0 no_answer no_page no_signatures 3 base listed ranked).0
    ≡ some (codes "v1.3.1")
unfolding runs verify_candidates candidate_signals major_jump group
verify_run = refl

jump_run :
    major_jump (classify_tag (codes "v1.2.3")) (classify_tag (codes "v9.0.0")) listed ≡ some (2, 8)
unfolding runs major_jump group
jump_run = refl

own_run : own_pre_release (classify_tag (codes "9.2.0-rc-1")) (classify_tag (codes "9.2")) ≡ true
unfolding runs own_pre_release is_prerelease group
own_run = refl
