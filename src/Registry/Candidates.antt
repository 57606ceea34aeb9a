-- ===== src/Registry/Candidates.antt =====
-- internal/registry/imagetag.go: the candidates that outrank a tag, and the variants of a build.
pub mod Outranks
pub mod Sorted
pub mod Laws
use yk_update_checker.Prelude.{
  none, ℕ, Option, Bool, List, if◌then◌else◌, ◌∷◌, ltb, ◌++◌, some, true, all, ◌&&◌, false, not,
  ◌+◌, [], length, take, zero,
}
use Prim.Native.Nat.{Ordering, ℕ, one, suc}
use yk_update_checker.Text.{Text, text_eq, contains, fields, is_digit, trim, span, to_lower, is_nil}
use yk_update_checker.Registry.Tag.{
  TagShape, classify_tag, is_tag_sep, sha_like, has_core, has_code,
}
use yk_update_checker.Registry.Order.{
  compare_core, is_gt, core_greater, comparable_shapes, is_prerelease, tag_scope_ok,
}
use yk_update_checker.Registry.Scope.{Scope}

-- The `less` of `sort.SliceStable`: greatest first, then the more precise spelling.
abbrev less_of : Ordering → Bool → Bool
less_of Ordering.eq longer = longer
less_of Ordering.gt longer = true
less_of Ordering.lt longer = false

unfoldable pub ranks_before : TagShape → TagShape → Bool
ranks_before a b = less_of (compare_core a.core b.core) (ltb (length b.core) (length a.core))

-- `sort.SliceStable` as an insertion sort: an element goes behind only those that are less.
unfoldable pub insert_stable : TagShape → List TagShape → List TagShape
insert_stable a [] = a ∷ []
insert_stable a (b ∷ bs) = if ranks_before b a then b ∷ insert_stable a bs else a ∷ b ∷ bs

unfoldable pub sort_stable : List TagShape → List TagShape
unfolding insert_stable
sort_stable [] = []
sort_stable (a ∷ as_) = insert_stable a (sort_stable as_)

-- The tests of the loop of `rankedCandidates`, over a shape that is not the current tag's text.
unfoldable pub outranks : TagShape → Scope → TagShape → Bool
outranks cur scope cand =
    comparable_shapes cur cand
    && not (is_prerelease cand)
    && tag_scope_ok cur cand scope
    && core_greater cand.core cur.core

unfoldable pub collect_candidates : TagShape → List Text → Scope → List TagShape
unfolding outranks
collect_candidates cur [] scope = []
collect_candidates cur (raw ∷ tags) scope =
    let rest = collect_candidates cur tags scope in
    let cand = classify_tag raw in
    if text_eq raw cur.raw then rest else if outranks cur scope cand then cand ∷ rest else rest

unfoldable pub ranked_candidates : TagShape → List Text → Scope → List TagShape
ranked_candidates cur tags scope = sort_stable (collect_candidates cur tags scope)

-- `shapePrefix`: the text before the version up to its last separator, which is not the first rune.
last_sep : ℕ → Option ℕ → Text → Option ℕ
last_sep i found [] = found
last_sep i found (c ∷ s) = last_sep (i + 1) (if is_tag_sep c then some i else found) s

cut_after : Text → Option ℕ → Text
cut_after pre none = pre
cut_after pre (some zero) = pre
cut_after pre (some (suc i)) = take (suc i + 1) pre

unfoldable pub shape_prefix : TagShape → Text
unfolding last_sep cut_after
shape_prefix shape = cut_after shape.pre (last_sep 0 none shape.pre)

-- `variantSegments`
unfoldable pub variant_words : List Text → List Text
variant_words [] = []
variant_words (seg ∷ segs) =
    let rest = variant_words segs in
    if sha_like seg then rest else if is_nil (trim is_digit seg) then rest else to_lower seg ∷ rest

unfoldable pub variant_segments : Text → List Text
unfolding variant_words
variant_segments tag = variant_words (fields is_tag_sep tag)

-- `sameVariant`: every word of the current tag is a word of the other. No word is asked for where
-- there is none.
unfoldable pub same_variant : Text → Text → Bool
same_variant cur cand = all (contains (variant_segments cand)) (variant_segments cur)

-- `widthProbe`
unfoldable pub width_probe : Text → Text
width_probe tag =
    let shape = classify_tag tag in if has_core shape.core then shape.pre ++ b'1' ∷ [] else []
