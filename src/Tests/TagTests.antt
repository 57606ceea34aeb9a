-- ===== src/Tests/TagTests.antt =====
-- Tags, their order, the candidates and the bumps: internal/registry/imagetag.go and scope.go.
use yk_update_checker.Prelude.{◌↔◌, map, ◌≢◌, ◌∷◌, List, ◌≡◌, [], true, refl}
use Prim.Native.Nat.{Ordering}
use mathlib.Core.List.{Mem}
use yk_update_checker.Text.{Text, codes, fields}
use yk_update_checker.Registry.Tag.{
  TagShape, classify_tag, sha_like, is_tag_sep, form_multi, form_single, form_last, numeric_kind,
  parse_int_groups,
}
use yk_update_checker.Registry.Tag.Sha.{AnyInterleaves, sha_like_iff}
use yk_update_checker.Registry.Tag.Decompose.{Spells, classify_tag-Spells}
use yk_update_checker.Registry.Order.{
  compare_core, compare_from, group, tag_scope_ok, comparable_shapes, is_prerelease,
}
use yk_update_checker.Registry.Order.Laws.{Exceeds, compare_core-gt_iff}
use yk_update_checker.Registry.Scope.{Scope}
use yk_update_checker.Registry.Candidates.{
  ranked_candidates, sort_stable, collect_candidates, ranks_before,
}
use yk_update_checker.Registry.Candidates.Sorted.{IsRanked}
use yk_update_checker.Registry.Candidates.Laws.{
  IsCandidate, ranked_candidates-mem, ranked_candidates-IsRanked,
}

runs : Unit {0}
unfolding classify_tag sha_like form_multi form_single form_last numeric_kind parse_int_groups
runs = tt

sha_like_iff_example :
    (sha_like (codes "477ac13-gfx1201") ≡ true)
    ↔ AnyInterleaves (fields is_tag_sep (codes "477ac13-gfx1201"))
sha_like_iff_example = sha_like_iff (codes "477ac13-gfx1201")

core_of_v : (classify_tag (codes "v1.24.3-alpine")).core ≡ 1 ∷ 24 ∷ 3 ∷ []
unfolding runs
core_of_v = refl

core_of_v-ne-nil : (classify_tag (codes "v1.24.3-alpine")).core ≢ []
core_of_v-ne-nil e = cc (core_of_v)

classify_tag-Spells_example : Spells (classify_tag (codes "v1.24.3-alpine"))
classify_tag-Spells_example = classify_tag-Spells (codes "v1.24.3-alpine") core_of_v-ne-nil

compare_core-gt_iff_example :
    (compare_core (9 ∷ 1 ∷ 2 ∷ []) (9 ∷ 1 ∷ []) ≡ Ordering.gt)
    ↔ Exceeds (9 ∷ 1 ∷ 2 ∷ []) (9 ∷ 1 ∷ [])
compare_core-gt_iff_example = compare_core-gt_iff (9 ∷ 1 ∷ 2 ∷ []) (9 ∷ 1 ∷ [])

gt_one : compare_core (3 ∷ []) (2 ∷ 9 ∷ []) ≡ Ordering.gt
unfolding compare_core compare_from group
gt_one = refl

gt_two : compare_core (2 ∷ 9 ∷ []) (2 ∷ []) ≡ Ordering.gt
unfolding compare_core compare_from group
gt_two = refl

abbrev current : TagShape
current = classify_tag (codes "v1.2.3")

abbrev listing : List Text
listing = codes "v1.2.3" ∷ codes "v1.10.0" ∷ codes "latest" ∷ codes "v2.0.0-rc1" ∷ codes "v2.0" ∷ []

ranked_run :
    map (λ (s : TagShape). s.raw) (ranked_candidates current listing Scope.all)
    ≡ codes "v2.0" ∷ codes "v1.10.0" ∷ []
unfolding runs ranked_candidates sort_stable collect_candidates ranks_before compare_core
    compare_from group comparable_shapes is_prerelease tag_scope_ok
ranked_run = refl

ranked_candidates-mem_example :
    Mem (classify_tag (codes "v2.0")) (ranked_candidates current listing Scope.all)
    ↔ ∥ IsCandidate current listing Scope.all (classify_tag (codes "v2.0")) ∥₁
ranked_candidates-mem_example =
    ranked_candidates-mem current Scope.all listing (classify_tag (codes "v2.0"))

ranked_candidates-IsRanked_example : IsRanked (ranked_candidates current listing Scope.all)
ranked_candidates-IsRanked_example = ranked_candidates-IsRanked current Scope.all listing

in_minor :
    tag_scope_ok (classify_tag (codes "1.2.3")) (classify_tag (codes "1.9.0")) Scope.minor ≡ true
unfolding runs tag_scope_ok
in_minor = refl

in_patch :
    tag_scope_ok (classify_tag (codes "1.2.3")) (classify_tag (codes "1.2.4")) Scope.patch ≡ true
unfolding runs tag_scope_ok
in_patch = refl
