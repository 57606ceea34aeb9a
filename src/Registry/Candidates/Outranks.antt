-- ===== src/Registry/Candidates/Outranks.antt =====
-- When a shape outranks another, said without the tests of the code.
use Prim.Native.Nat.{Ordering}
use yk_update_checker.Prelude.{
  ◌≡◌, false, ◌↔◌, true, ◌≢◌, refl, [], ◌∷◌, ◌⊎◌, ◌<◌, length, arith, ℕ, List,
}
use yk_update_checker.Text.{text_eq_iff}
use yk_update_checker.Registry.Tag.{TagShape, TagKind, kind_eq, has_core}
use yk_update_checker.Registry.Scope.{Scope}
use yk_update_checker.Registry.Order.{
  is_prerelease, group, is_gt, compare_core, comparable_shapes, tag_scope_ok,
}
use yk_update_checker.Registry.Order.Laws.{Exceeds, compare_core-gt_iff}
use yk_update_checker.Registry.Candidates.{outranks, Ordering}

-- Shapes of one major version, and of one minor version; a shape of one group is not restricted.
abbrev pub InScope : TagShape → TagShape → Scope → Type 0
InScope cur cand Scope.all = Unit
InScope cur cand Scope.major = Unit
InScope cur cand Scope.minor = (length cur.core < 2) ⊎ (group cand.core 0 ≡ group cur.core 0)
InScope cur cand Scope.patch =
    (length cur.core < 2)
    ⊎ ((group cand.core 0 ≡ group cur.core 0) × (group cand.core 1 ≡ group cur.core 1))

-- The shapes differ in the version alone, both have one, the candidate's is a release within the
-- scope, and it is greater at the first group where the two differ.
pub record Outranks (cur : TagShape) (scope : Scope) (cand : TagShape) : Type 0 where
  pub kind : cur.kind ≡ cand.kind
  pub pre : cur.pre ≡ cand.pre
  pub post : cur.post ≡ cand.post
  pub versioned : cur.core ≢ []
  pub release : is_prerelease cand ≡ false
  pub in_scope : InScope cur cand scope
  pub newer : Exceeds cand.core cur.core

pub kind_eq_iff : (a b : TagKind) → (kind_eq a b ≡ true) ↔ (a ≡ b)
unfolding kind_eq
kind_eq_iff a b = ground arith

has_core_iff : (ns : List ℕ) → (has_core ns ≡ true) ↔ (ns ≢ [])
has_core_iff [] = (λ h. absurd (cc h), λ ne. absurd (ne refl))
has_core_iff (n ∷ ns) = (λ h e. cc e, λ ne. refl)

is_gt_iff : (o : Ordering) → (is_gt o ≡ true) ↔ (o ≡ Ordering.gt)
is_gt_iff o = ground arith

group-nil : (i : ℕ) → group [] i ≡ 0
unfolding group
group-nil i = refl

Exceeds-versioned : (a b : List ℕ) → Exceeds a b → has_core a ≡ true
Exceeds-versioned [] b x = absurd (omega (arith, x.above, group-nil x.at))
Exceeds-versioned (n ∷ ns) b x = refl

tag_scope_ok_iff :
    (cur cand : TagShape) (scope : Scope)
    → (tag_scope_ok cur cand scope ≡ true) ↔ InScope cur cand scope
unfolding tag_scope_ok
tag_scope_ok_iff cur cand Scope.all = (λ _. tt, λ _. refl)
tag_scope_ok_iff cur cand Scope.major = (λ _. tt, λ _. refl)
tag_scope_ok_iff cur cand Scope.minor = ground arith
tag_scope_ok_iff cur cand Scope.patch = ground arith

-- The tests of the loop say that the candidate outranks the current shape.
pub outranks_iff :
    (cur : TagShape) (scope : Scope) (cand : TagShape)
    → (outranks cur scope cand ≡ true) ↔ Outranks cur scope cand
unfolding outranks comparable_shapes
outranks_iff cur scope cand = (
  λ h. record {
    kind = (kind_eq_iff cur.kind cand.kind).0 (ground arith);
    pre = (text_eq_iff cur.pre cand.pre).0 (ground arith);
    post = (text_eq_iff cur.post cand.post).0 (ground arith);
    versioned = (has_core_iff cur.core).0 (ground arith);
    release = ground arith;
    in_scope = (tag_scope_ok_iff cur cand scope).0 (ground arith);
    newer =
        (compare_core-gt_iff cand.core cur.core).0
          ((is_gt_iff (compare_core cand.core cur.core)).0 (ground arith));
  },
  λ o. holds o,
)
  where
    holds : Outranks cur scope cand → outranks cur scope cand ≡ true
    holds o =
        rw
          (
            (kind_eq_iff cur.kind cand.kind).1 o.kind,
            (text_eq_iff cur.pre cand.pre).1 o.pre,
            (text_eq_iff cur.post cand.post).1 o.post,
            (has_core_iff cur.core).1 o.versioned,
            Exceeds-versioned cand.core cur.core o.newer,
            o.release,
            (tag_scope_ok_iff cur cand scope).1 o.in_scope,
            (compare_core-gt_iff cand.core cur.core).1 o.newer,
          )
          refl
