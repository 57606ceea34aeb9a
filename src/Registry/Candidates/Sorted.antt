-- ===== src/Registry/Candidates/Sorted.antt =====
-- The stable sort of candidates.
use yk_update_checker.Prelude.{
  List, ◌∷◌, [], All, Bool-cases, inl, ◌≡◌, inr, false, ℕ, true, ◌∙◌, arith, sym, length, ap, ◌≤◌,
}
use Prim.Native.Nat.{ℕ}
use mathlib.Core.List.{Perm}
use mathlib.Core.List.Perm
use yk_update_checker.Registry.Tag.{TagShape}
use yk_update_checker.Registry.Order.{group}
use yk_update_checker.Registry.Order.Laws.{
  compare_core-gt_iff, compare_core-eq_iff, compare_core-opposite, Exceeds, Exceeds-trans,
  Exceeds-cong_left, Exceeds-cong_right, below, level, above, core_cases, opposite,
}
use yk_update_checker.Registry.Candidates.{ranks_before, insert_stable, sort_stable}

insert_stable-perm : (a : TagShape) (l : List TagShape) → Perm (insert_stable a l) (a ∷ l)
unfolding insert_stable
insert_stable-perm a [] = Perm.refl (a ∷ [])
insert_stable-perm a (b ∷ l) = elim (Bool-cases (ranks_before b a)) [
  | inl h ↦ rw h (Perm.trans (Perm.cons b (insert_stable-perm a l)) (Perm.swap a b l))
  | inr h ↦ rw h (Perm.refl (a ∷ b ∷ l))
]

-- The sorted list holds the same shapes, as often.
pub sort_stable-perm : (l : List TagShape) → Perm (sort_stable l) l
unfolding sort_stable
sort_stable-perm [] = Perm.refl []
sort_stable-perm (a ∷ l) =
    Perm.trans (insert_stable-perm a (sort_stable l)) (Perm.cons a (sort_stable-perm l))

-- No shape ranks before one that stands in front of it.
abbrev IsSettled : List TagShape → Type 0
IsSettled [] = Unit
IsSettled (a ∷ l) = All (λ b. ranks_before b a ≡ false) l × IsSettled l

-- The version of `a` is not greater than that of `b`, and of equal versions it has no more groups.
pub data NotBefore (a b : TagShape) : Type 0 where
  lower : Exceeds b.core a.core → NotBefore a b
  same : ((i : ℕ) → group a.core i ≡ group b.core i) → length a.core ≤ length b.core → NotBefore a b

not_before : (a b : TagShape) → ranks_before a b ≡ false → NotBefore a b
unfolding ranks_before
not_before a b h = elim (core_cases a.core b.core) [
  | below e x ↦ lower x
  | level e g ↦ same g (ground arith)
  | above e x ↦ absurd (cc (rw (e, ranks_before) at h))
]

before_false : (a b : TagShape) → NotBefore a b → ranks_before a b ≡ false
unfolding ranks_before
before_false a b (lower x) =
    rw (compare_core-opposite b.core a.core ∙ ap opposite ((compare_core-gt_iff b.core a.core).1 x))
before_false a b (same g l) = rw ((compare_core-eq_iff a.core b.core).1 g) (ground arith)

NotBefore_trans : {a b c : TagShape} → NotBefore a b → NotBefore b c → NotBefore a c
NotBefore_trans (lower x) (lower y) = lower (Exceeds-trans y x)
NotBefore_trans (lower x) (same g l) = lower (Exceeds-cong_left (λ i. sym (g i)) x)
NotBefore_trans (same g l) (lower y) = lower (Exceeds-cong_right g y)
NotBefore_trans (same g l) (same k m) = same (λ i. g i ∙ k i) (omega arith)

-- Of two shapes one does not rank before the other.
before_asym : (a b : TagShape) → ranks_before b a ≡ true → ranks_before a b ≡ false
unfolding ranks_before
before_asym a b h = elim (core_cases a.core b.core) [
  | below e x ↦ before_false a b (lower x)
  | level e g ↦ before_false a b (same g (ground (arith, compare_core-opposite a.core b.core)))
  | above e x ↦ ground (arith, compare_core-opposite a.core b.core)
]

module _ {ℓ} (P : TagShape → Type ℓ) where
  insert_stable-All : (a : TagShape) (l : List TagShape) → P a → All P l → All P (insert_stable a l)
  unfolding insert_stable
  insert_stable-All a [] p h = (p, tt)
  insert_stable-All a (b ∷ l) p (q, h) = elim (Bool-cases (ranks_before b a)) [
    | inl e ↦ rw e (q, insert_stable-All a l p h)
    | inr e ↦ rw e (p, (q, h))
  ]

All-weaken :
    (a b : TagShape) (l : List TagShape)
    → NotBefore b a
    → All (λ c. ranks_before c b ≡ false) l
    → All (λ c. ranks_before c a ≡ false) l
All-weaken a b [] n h = tt
All-weaken a b (c ∷ l) n (p, h) =
    (before_false c a (NotBefore_trans (not_before c b p) n), All-weaken a b l n h)

insert_stable-IsSettled :
    (a : TagShape) (l : List TagShape) → IsSettled l → IsSettled (insert_stable a l)
unfolding insert_stable
insert_stable-IsSettled a [] r = (tt, tt)
insert_stable-IsSettled a (b ∷ l) (h, r) = elim (Bool-cases (ranks_before b a)) [
  | inl e ↦ rw e (
    insert_stable-All (λ c. ranks_before c b ≡ false) a l (before_asym a b e) h,
    insert_stable-IsSettled a l r,
  )
  | inr e ↦ rw e ((e, All-weaken a b l (not_before b a e) h), (h, r))
]

sort_stable-IsSettled : (l : List TagShape) → IsSettled (sort_stable l)
unfolding sort_stable
sort_stable-IsSettled [] = tt
sort_stable-IsSettled (a ∷ l) = insert_stable-IsSettled a (sort_stable l) (sort_stable-IsSettled l)

-- No shape has a greater version than one that stands in front of it, and of equal versions the one
-- with more groups stands in front.
abbrev pub IsRanked : List TagShape → Type 0
IsRanked [] = Unit
IsRanked (a ∷ l) = All (λ b. NotBefore b a) l × IsRanked l

each_behind :
    (a : TagShape) (l : List TagShape)
    → All (λ b. ranks_before b a ≡ false) l
    → All (λ b. NotBefore b a) l
each_behind a [] h = tt
each_behind a (b ∷ l) (p, h) = (not_before b a p, each_behind a l h)

IsSettled-IsRanked : (l : List TagShape) → IsSettled l → IsRanked l
IsSettled-IsRanked [] h = tt
IsSettled-IsRanked (a ∷ l) (p, h) = (each_behind a l p, IsSettled-IsRanked l h)

-- The sorted list stands in rank order.
pub sort_stable-IsRanked : (l : List TagShape) → IsRanked (sort_stable l)
sort_stable-IsRanked l = IsSettled-IsRanked (sort_stable l) (sort_stable-IsSettled l)
