-- ===== src/Registry/Order.antt =====
-- internal/registry/imagetag.go: the order of version cores, and which tags may be compared.
pub mod Laws
use yk_update_checker.Prelude.{
  Bool, List, false, ◌&&◌, true, ◌||◌, max, ◌∷◌, ◌==◌, [], all, ltb, length, zero,
}
use Prim.Native.Nat.{compare, Ordering, ℕ, max, suc}
use yk_update_checker.Text.{
  Text, text_eq, has_infix, to_lower, codes, trim_left, is_letter, span, contains,
}
use yk_update_checker.Registry.Tag.{TagKind, kind_eq, TagShape, has_core}
use yk_update_checker.Registry.Scope.{Scope}

-- `group`: core[i], or 0 past the end
unfoldable pub group : List ℕ → ℕ → ℕ
group [] i = 0
group (n ∷ ns) zero = n
group (n ∷ ns) (suc i) = group ns i

-- The loop of `compareCore`: at most `rounds` groups from index `i`.
unfoldable pub compare_from : ℕ → ℕ → List ℕ → List ℕ → Ordering
compare_from zero i a b = Ordering.eq
compare_from (suc rounds) i a b = elim (compare (group a i) (group b i)) [
  | Ordering.eq ↦ compare_from rounds (suc i) a b
  | Ordering.lt ↦ Ordering.lt
  | Ordering.gt ↦ Ordering.gt
]

-- `compareCore`: -1, 0 and +1 are `lt`, `eq` and `gt`.
unfoldable pub compare_core : List ℕ → List ℕ → Ordering
compare_core a b = compare_from (max (length a) (length b)) 0 a b

abbrev pub is_gt : Ordering → Bool
is_gt Ordering.gt = true
is_gt Ordering.eq = false
is_gt Ordering.lt = false

-- `coreGreater`
abbrev pub core_greater : List ℕ → List ℕ → Bool
core_greater a b = is_gt (compare_core a b)

-- `comparableShapes`
unfoldable pub comparable_shapes : TagShape → TagShape → Bool
unfolding kind_eq text_eq
comparable_shapes cur cand =
    kind_eq cur.kind cand.kind
    && text_eq cur.pre cand.pre
    && text_eq cur.post cand.post
    && has_core cur.core
    && has_core cand.core

-- `tagScopeOK`
unfoldable pub tag_scope_ok : TagShape → TagShape → Scope → Bool
unfolding group
tag_scope_ok cur cand Scope.major = true
tag_scope_ok cur cand Scope.all = true
tag_scope_ok cur cand Scope.minor = ltb (length cur.core) 2 || group cand.core 0 == group cur.core 0
tag_scope_ok cur cand Scope.patch =
    ltb (length cur.core) 2
    || (group cand.core 0 == group cur.core 0 && group cand.core 1 == group cur.core 1)

abbrev pub prerelease_words : List Text
prerelease_words =
    codes "rc"
    ∷ codes "beta"
    ∷ codes "alpha"
    ∷ codes "dev"
    ∷ codes "develop"
    ∷ codes "development"
    ∷ codes "snapshot"
    ∷ codes "preview"
    ∷ codes "nightly"
    ∷ codes "wip"
    ∷ codes "tp"
    ∷ codes "pre"
    ∷ codes "test"
    ∷ codes "testing"
    ∷ codes "debug"
    ∷ codes "canary"
    ∷ codes "next"
    ∷ codes "edge"
    ∷ codes "master"
    ∷ codes "main"
    ∷ []

unfoldable pub all_zero : List ℕ → Bool
all_zero [] = false
all_zero (n ∷ ns) = all (λ k. k == 0) (n ∷ ns)

abbrev is_mark : ℕ → Bool
is_mark c = c == b'-' || c == b'.' || c == b'_' || c == b'+' || c == b' '

-- One round of the loop over `Post` and `Pre`. No listed word is empty, so an empty run is none.
unfoldable pub marks_prerelease : Text → Bool
unfolding has_infix to_lower span contains
marks_prerelease s =
    has_infix (to_lower s) (codes ".sig")
    || contains prerelease_words (to_lower (span is_letter (trim_left is_mark s)).0)

-- `isPrerelease`
unfoldable pub is_prerelease : TagShape → Bool
unfolding all_zero marks_prerelease
is_prerelease shape =
    all_zero shape.core || marks_prerelease shape.post || marks_prerelease shape.pre
