-- ===== src/Registry/Order/Laws.antt =====
-- `compareCore` orders version cores as sequences of numbers that go on with zeros for ever.
use yk_update_checker.Prelude.{
  List, ℕ, arith, ◌<◌, ◌≤◌, length, ◌≡◌, ◌⊎◌, ◌↔◌, max, ◌∷◌, ◌+◌, [], inl, inr, refl, zero, ap, ◌∙◌,
  sym,
}
use Prim.Native.Nat.{compare, Ordering, ℕ, suc, max}
use yk_update_checker.Registry.Order.{group, compare_from, compare_core, List}

abbrev Compared : ℕ → ℕ → Type 0
Compared x y =
    ((compare x y ≡ Ordering.lt) × (x < y))
    ⊎ ((compare x y ≡ Ordering.eq) × (x ≡ y))
    ⊎ ((compare x y ≡ Ordering.gt) × (y < x))

compare_cases : (x y : ℕ) → Compared x y
compare_cases x y = ground arith

compare_lt : (x y : ℕ) → x < y → compare x y ≡ Ordering.lt
compare_lt x y h = ground arith

compare_gt : (x y : ℕ) → y < x → compare x y ≡ Ordering.gt
compare_gt x y h = ground arith

compare_eq : (x y : ℕ) → x ≡ y → compare x y ≡ Ordering.eq
compare_eq x y h = ground arith

-- `a` exceeds `b` at some group, and all the groups before it agree.
pub record Exceeds (a b : List ℕ) : Type 0 where
  pub at : ℕ
  pub agree : (j : ℕ) → j < at → group a j ≡ group b j
  pub above : group b at < group a at

group-past : (a : List ℕ) (i : ℕ) → length a ≤ i → group a i ≡ 0
unfolding group
group-past [] i h = refl
group-past (n ∷ ns) zero h = absurd (omega arith)
group-past (n ∷ ns) (suc i) h = group-past ns i (omega arith)

module _ (a b : List ℕ) where
  module _ (n i : ℕ) where
    compare_from_eq :
        group a i ≡ group b i → compare_from (suc n) i a b ≡ compare_from n (suc i) a b
    unfolding compare_from
    compare_from_eq h = rw (compare_eq _ _ h, compare_from)

    compare_from_gt : group b i < group a i → compare_from (suc n) i a b ≡ Ordering.gt
    unfolding compare_from
    compare_from_gt h = rw (compare_gt _ _ h, compare_from)

    compare_from_lt : group a i < group b i → compare_from (suc n) i a b ≡ Ordering.lt
    unfolding compare_from
    compare_from_lt h = rw (compare_lt _ _ h, compare_from)

  agree_suc :
      (i : ℕ)
      → ((j : ℕ) → j < i → group a j ≡ group b j)
      → group a i ≡ group b i
      → (j : ℕ) → j < suc i
      → group a j ≡ group b j
  agree_suc i h l j k = elim (compare_cases j i) [
    | inl (c, m) ↦ h j m
    | inr (inl (c, m)) ↦ rw m l
    | inr (inr (c, m)) ↦ absurd (omega arith)
  ]

  compare_from_gt_sound :
      (n i : ℕ)
      → compare_from n i a b ≡ Ordering.gt
      → ((j : ℕ) → j < i → group a j ≡ group b j)
      → Exceeds a b
  unfolding compare_from
  compare_from_gt_sound zero i e h = absurd (cc e)
  compare_from_gt_sound (suc n) i e h = elim (compare_cases (group a i) (group b i)) [
    | inl (c, l) ↦ absurd (cc (compare_from_lt n i l))
    | inr (inl (c, l)) ↦
        compare_from_gt_sound n (suc i) (sym (compare_from_eq n i l) ∙ e) (agree_suc i h l)
    | inr (inr (c, l)) ↦ record { at = i; agree = h; above = l }
  ]

  compare_from_gt_complete :
      (n i : ℕ) (x : Exceeds a b) → i ≤ x.at → x.at < i + n → compare_from n i a b ≡ Ordering.gt
  compare_from_gt_complete zero i x l u = absurd (omega arith)
  compare_from_gt_complete (suc n) i x l u = elim (compare_cases i x.at) [
    | inl (c, m) ↦
        compare_from_eq n i (x.agree i m) ∙ compare_from_gt_complete n (suc i) x m (omega arith)
    | inr (inl (c, m)) ↦ compare_from_gt n i (rw m x.above)
    | inr (inr (c, m)) ↦ absurd (omega arith)
  ]

  compare_from_eq_sound :
      (n i : ℕ)
      → compare_from n i a b ≡ Ordering.eq
      → ((j : ℕ) → j < i → group a j ≡ group b j)
      → (j : ℕ) → j < i + n
      → group a j ≡ group b j
  compare_from_eq_sound zero i e h j k = h j (omega arith)
  compare_from_eq_sound (suc n) i e h j k = elim (compare_cases (group a i) (group b i)) [
    | inl (c, l) ↦ absurd (cc (compare_from_lt n i l))
    | inr (inl (c, l)) ↦
        compare_from_eq_sound n (suc i) (sym (compare_from_eq n i l) ∙ e) (agree_suc i h l) j
          (omega arith)
    | inr (inr (c, l)) ↦ absurd (cc (compare_from_gt n i l))
  ]

  compare_from_eq_complete :
      (n i : ℕ) → ((j : ℕ) → group a j ≡ group b j) → compare_from n i a b ≡ Ordering.eq
  unfolding compare_from
  compare_from_eq_complete zero i h = refl
  compare_from_eq_complete (suc n) i h =
      compare_from_eq n i (h i) ∙ compare_from_eq_complete n (suc i) h

  past_both : (i : ℕ) → max (length a) (length b) ≤ i → group a i ≡ group b i
  past_both i h = group-past a i (omega arith) ∙ sym (group-past b i (omega arith))

  Exceeds-bound : (x : Exceeds a b) → x.at < max (length a) (length b)
  Exceeds-bound x = elim (compare_cases x.at (max (length a) (length b))) [
    | inl (c, m) ↦ m
    | inr (inl (c, m)) ↦ absurd (omega (arith, past_both x.at (omega arith), x.above))
    | inr (inr (c, m)) ↦ absurd (omega (arith, past_both x.at (omega arith), x.above))
  ]

  -- The comparison says "greater" exactly when, at the first group that differs, the first version
  -- has the greater number; a missing group counts as zero.
  pub compare_core-gt_iff : (compare_core a b ≡ Ordering.gt) ↔ Exceeds a b
  unfolding compare_core
  compare_core-gt_iff = (
    λ e. compare_from_gt_sound (max (length a) (length b)) 0 e (λ j h. absurd (omega arith)),
    λ x.
        compare_from_gt_complete (max (length a) (length b)) 0 x (omega arith)
          (omega (arith, Exceeds-bound x)),
  )

  -- The comparison says "equal" exactly when all groups agree, missing ones counting as zero.
  pub compare_core-eq_iff : (compare_core a b ≡ Ordering.eq) ↔ ((i : ℕ) → group a i ≡ group b i)
  unfolding compare_core
  compare_core-eq_iff = (
    λ e i. elim (compare_cases i (max (length a) (length b))) [
      | inl (c, m) ↦
          compare_from_eq_sound (max (length a) (length b)) 0 e (λ j h. absurd (omega arith)) i
            (omega arith)
      | inr (inl (c, m)) ↦ past_both i (omega arith)
      | inr (inr (c, m)) ↦ past_both i (omega arith)
    ],
    compare_from_eq_complete (max (length a) (length b)) 0,
  )

abbrev pub opposite : Ordering → Ordering
opposite Ordering.lt = Ordering.gt
opposite Ordering.eq = Ordering.eq
opposite Ordering.gt = Ordering.lt

compare_from-opposite :
    (n i : ℕ) (a b : List ℕ) → compare_from n i b a ≡ opposite (compare_from n i a b)
unfolding compare_from
compare_from-opposite zero i a b = refl
compare_from-opposite (suc n) i a b = elim (compare_cases (group a i) (group b i)) [
  | inl (c, l) ↦ compare_from_gt b a n i l ∙ sym (ap opposite (compare_from_lt a b n i l))
  | inr (inl (c, l)) ↦
      compare_from_eq b a n i (sym l)
      ∙ compare_from-opposite n (suc i) a b
      ∙ sym (ap opposite (compare_from_eq a b n i l))
  | inr (inr (c, l)) ↦ compare_from_lt b a n i l ∙ sym (ap opposite (compare_from_gt a b n i l))
]

-- Exchanging the versions turns the answer round.
pub compare_core-opposite : (a b : List ℕ) → compare_core b a ≡ opposite (compare_core a b)
unfolding compare_core
compare_core-opposite a b =
    ap (λ n. compare_from n 0 b a) (omega arith)
    ∙ compare_from-opposite (max (length a) (length b)) 0 a b

pub Exceeds-trans : {a b c : List ℕ} → Exceeds a b → Exceeds b c → Exceeds a c
Exceeds-trans x y = elim (compare_cases x.at y.at) [
  | inl (c, m) ↦ record {
    at = x.at;
    agree = λ j h. x.agree j h ∙ y.agree j (omega arith);
    above = rw (← y.agree x.at m) x.above;
  }
  | inr (inl (c, m)) ↦ record {
    at = x.at;
    agree = λ j h. x.agree j h ∙ y.agree j (omega arith);
    above = omega (arith, x.above, rw (← m) at y.above);
  }
  | inr (inr (c, m)) ↦ record {
    at = y.at;
    agree = λ j h. x.agree j (omega arith) ∙ y.agree j h;
    above = rw (x.agree y.at m) y.above;
  }
]

-- How two versions compare, and what that says of their groups.
pub data CoreCases (a b : List ℕ) : Type 0 where
  below : compare_core a b ≡ Ordering.lt → Exceeds b a → CoreCases a b
  level : compare_core a b ≡ Ordering.eq → ((i : ℕ) → group a i ≡ group b i) → CoreCases a b
  above : compare_core a b ≡ Ordering.gt → Exceeds a b → CoreCases a b

pub core_cases : (a b : List ℕ) → CoreCases a b
core_cases a b = go (compare_core a b) refl
  where
    go : (o : Ordering) → compare_core a b ≡ o → CoreCases a b
    go Ordering.lt e =
        below e ((compare_core-gt_iff b a).0 (compare_core-opposite a b ∙ ap opposite e))
    go Ordering.eq e = level e ((compare_core-eq_iff a b).0 e)
    go Ordering.gt e = above e ((compare_core-gt_iff a b).0 e)

pub Exceeds-cong_left :
    {a a' b : List ℕ} → ((i : ℕ) → group a' i ≡ group a i) → Exceeds a b → Exceeds a' b
Exceeds-cong_left e x = record {
  at = x.at;
  agree = λ j h. e j ∙ x.agree j h;
  above = rw (e x.at) x.above;
}

pub Exceeds-cong_right :
    {a b b' : List ℕ} → ((i : ℕ) → group b' i ≡ group b i) → Exceeds a b → Exceeds a b'
Exceeds-cong_right e x = record {
  at = x.at;
  agree = λ j h. x.agree j h ∙ sym (e j);
  above = rw (e x.at) x.above;
}

-- "Greater" is transitive.
pub compare_core-gt_trans :
    (a b c : List ℕ)
    → compare_core a b ≡ Ordering.gt
    → compare_core b c ≡ Ordering.gt
    → compare_core a c ≡ Ordering.gt
compare_core-gt_trans a b c p q =
    (compare_core-gt_iff a c).1
      (Exceeds-trans ((compare_core-gt_iff a b).0 p) ((compare_core-gt_iff b c).0 q))
