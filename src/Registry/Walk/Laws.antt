-- ===== src/Registry/Walk/Laws.antt =====
-- The bounds of the search, and what it collects.
use yk_update_checker.Text.Distinct.{IsDistinct-append, IsDistinct, contains-append}
use yk_update_checker.Errkind.{Failure}
use yk_update_checker.Prelude.{
  ℕ, ◌≡◌, List, Bool, ◌++◌, ◌∷◌, false, Option, ◌⊎◌, Bool-cases, [], sym, ◌||◌, arith, inl, ltb,
  length, ◌∙◌, inr, refl, not, ◌+◌, ◌≤◌, ◌-◌, suc, ◌==◌, zero, ◌*◌, none, true, ◌<◌,
}
use yk_update_checker.Text.{Text, contains, is_nil}
use yk_update_checker.Registry.Walk.{
  Page, page, broken, Limits, TagWalk, collect, after_page, same_family, walk_pages, resume,
  try_anchor, try_all, image_tags, Search, walk, rollover_probe,
}

-- The tags collected are distinct, and the set of seen tags is the list's.
pub record IsCollected (w : TagWalk) : Type 0 where
  pub distinct : IsDistinct w.out
  pub same : (t : Text) → contains w.seen t ≡ contains w.out t

collect_one-IsCollected :
    (w : TagWalk) (t : Text)
    → IsCollected w
    → contains w.seen t ≡ false
    → IsCollected (record w { seen = t ∷ w.seen; out = w.out ++ t ∷ [] })
unfolding contains
collect_one-IsCollected w t c h = record {
  distinct = IsDistinct-append w.out t c.distinct (sym (c.same t) ∙ h);
  same = λ u. ground (arith, contains-append w.out t u, c.same u);
}

collect-IsCollected :
    (tags : List Text) (w : TagWalk) → IsCollected w → IsCollected (collect w tags)
unfolding collect
collect-IsCollected [] w c = c
collect-IsCollected (t ∷ tags) w c = elim (Bool-cases (contains w.seen t)) [
  | inl h ↦ rw h (collect-IsCollected tags w c)
  | inr h ↦ rw h (collect-IsCollected tags _ (collect_one-IsCollected w t c h))
]

-- Collecting tags is no request.
collect-budget : (tags : List Text) (w : TagWalk) → (collect w tags).budget ≡ w.budget
unfolding collect
collect-budget [] w = refl
collect-budget (t ∷ tags) w = elim (Bool-cases (contains w.seen t)) [
  | inl h ↦ rw (h, collect) (collect-budget tags w)
  | inr h ↦ rw (h, collect) (collect-budget tags _)
]

collect-requests : (tags : List Text) (w : TagWalk) → (collect w tags).requests ≡ w.requests
unfolding collect
collect-requests [] w = refl
collect-requests (t ∷ tags) w = elim (Bool-cases (contains w.seen t)) [
  | inl h ↦ rw (h, collect) (collect-requests tags w)
  | inr h ↦ rw (h, collect) (collect-requests tags _)
]

budget_left : (n : ℕ) → (n == 0) ≡ false → 0 < n
budget_left n h = ground arith

-- The state once a request is sent.
abbrev asked : Text → Text → TagWalk → TagWalk
asked anchor next w = record w { budget = w.budget - 1; requests = (anchor, next) ∷ w.requests }

module _ (limits : Limits) (tags_page : ℕ → Text → Text → Page) where
  abbrev stopped_at : (TagWalk × Bool) ⊎ (TagWalk × Text) → TagWalk
  stopped_at (inl (w, b)) = w
  stopped_at (inr (w, c)) = w

  module _ {ℓ} (P : TagWalk → Type ℓ) where
    after_page_inv :
        (anchor : Text) (w : TagWalk) (p : Page)
        → P w
        → ((e : Option Failure) → P (record w { first_err = e }))
        → ((tags : List Text) → P (collect w tags))
        → P (stopped_at (after_page limits tags_page anchor w p))
    unfolding after_page
    after_page_inv anchor w (broken e) h k c = k _
    after_page_inv anchor w (page tags cursor) h k c =
        elim (Bool-cases (ltb limits.tag_page_size (length tags))) [
          | inl a ↦ rw a (c tags)
          | inr a ↦ rw a (elim (Bool-cases (is_nil cursor)) [
            | inl b ↦ rw b (c tags)
            | inr b ↦ rw b (elim (Bool-cases (not (same_family tags anchor))) [
              | inl d ↦ rw d (c tags)
              | inr d ↦ rw d (c tags)
            ])
          ])
        ]

  -- From `w` to `v` at most `n` requests are made, each paid from the budget, and the tags stay
  -- distinct.
  pub record Spends (n : ℕ) (w v : TagWalk) : Type 0 where
    pub collected : IsCollected v
    pub paid : length v.requests + v.budget ≡ length w.requests + w.budget
    pub bound : length v.requests ≤ length w.requests + n

  after_page-Spends :
      (anchor next : Text) (w : TagWalk)
      → 0 < w.budget
      → IsCollected w
      → Spends 1 w (
          stopped_at (
            after_page limits tags_page anchor
              (asked anchor next w)
              (tags_page (w.budget - 1) anchor next)))
  after_page-Spends anchor next w h c =
      after_page_inv (Spends 1 w) anchor (asked anchor next w)
        (tags_page (w.budget - 1) anchor next)
        (record { collected = again; paid = omega arith; bound = omega arith })
        (λ e. record {
          collected = record { distinct = c.distinct; same = c.same };
          paid = omega arith;
          bound = omega arith;
        })
        (λ tags. record {
          collected = collect-IsCollected tags _ again;
          paid =
              rw
                (
                  collect-budget tags (asked anchor next w),
                  collect-requests tags (asked anchor next w),
                )
                (omega arith);
          bound = rw (collect-requests tags (asked anchor next w)) (omega arith);
        })
    where
      again : IsCollected (asked anchor next w)
      again = record { distinct = c.distinct; same = c.same }

  Spends-trans : {m n : ℕ} {u v w : TagWalk} → Spends m u v → Spends n v w → Spends (m + n) u w
  Spends-trans p q = record {
    collected = q.collected;
    paid = omega (arith, p.paid, q.paid);
    bound = omega (arith, p.bound, q.bound);
  }

  Spends-le : {m n : ℕ} {u v : TagWalk} → m ≤ n → Spends m u v → Spends n u v
  Spends-le h p = record { collected = p.collected; paid = p.paid; bound = omega (arith, p.bound) }

  resume-Spends :
      (n : ℕ) (w : TagWalk) (o : (TagWalk × Bool) ⊎ (TagWalk × Text))
      (go : TagWalk → Text → TagWalk × Bool)
      → Spends 1 w (stopped_at o)
      → ((v : TagWalk) (c : Text) → IsCollected v → Spends n v (go v c).0)
      → Spends (suc n) w (resume limits tags_page o go).0
  unfolding resume
  resume-Spends n w (inl (v, b)) go p h = Spends-le (omega arith) p
  resume-Spends n w (inr (v, c)) go p h =
      Spends-le (omega arith) (Spends-trans p (h v c p.collected))

  walk_pages-Spends :
      (rounds : ℕ) (anchor next : Text) (w : TagWalk)
      → IsCollected w
      → Spends rounds w (walk_pages limits tags_page rounds anchor next w).0
  unfolding walk_pages
  walk_pages-Spends zero anchor next w c = record {
    collected = c;
    paid = refl;
    bound = omega arith;
  }
  walk_pages-Spends (suc rounds) anchor next w c = elim (Bool-cases (w.budget == 0)) [
    | inl e ↦ rw e (record { collected = c; paid = refl; bound = omega arith })
    | inr e ↦ rw e (
        resume-Spends rounds w
          (after_page limits tags_page anchor (asked anchor next w)
            (tags_page (w.budget - 1) anchor next))
          (λ v cursor. walk_pages limits tags_page rounds anchor cursor v)
          (after_page-Spends anchor next w (budget_left w.budget e) c)
          (λ v cursor d. walk_pages-Spends rounds anchor cursor v d))
  ]

  -- Every anchor tried has cost at most `max_pages` requests.
  abbrev IsFrugal : TagWalk → ℕ → Search limits tags_page → Type 0
  IsFrugal start n z =
      Spends (limits.max_pages * length z.tried) start z.state × (length z.tried ≤ n)

  tried_more :
      (z : Search limits tags_page)
      → limits.max_pages * length z.tried + limits.max_pages
        ≡ limits.max_pages * suc (length z.tried)
  tried_more z = omega arith

  try_anchor-IsFrugal :
      (start : TagWalk) (n : ℕ) (z : Search limits tags_page) (a : Text)
      → IsFrugal start n z
      → IsFrugal start (suc n) (try_anchor limits tags_page z a)
  unfolding try_anchor walk
  try_anchor-IsFrugal start n z a (p, q) = elim (Bool-cases (is_nil a || contains z.tried a)) [
    | inl e ↦ rw e (p, omega arith)
    | inr e ↦ rw e (
      Spends-le (omega arith)
          (Spends-trans p (walk_pages-Spends limits.max_pages a [] z.state p.collected)),
      omega arith,
    )
  ]

  try_all-IsFrugal :
      (start : TagWalk) (anchors : List Text) (n : ℕ) (z : Search limits tags_page)
      → IsFrugal start n z
      → IsFrugal start (n + 2 * length anchors) (try_all limits tags_page z anchors)
  unfolding try_all
  try_all-IsFrugal start [] n z h = (h.0, omega (arith, h.1))
  try_all-IsFrugal start (a ∷ anchors) n z h =
      let once = try_anchor-IsFrugal start n z a h in
      let twice = try_anchor-IsFrugal start (suc n) _ (rollover_probe a) once in
      let rest = try_all-IsFrugal start anchors (suc (suc n)) _ twice in
      (rest.0, omega (arith, rest.1))

  -- Whatever the registry answers, and whenever: the tags found are distinct; the requests made are
  -- at most `page_budget`, and at most `max_pages` for each anchor tried; and at most two anchors are
  -- tried for each one given.
  pub image_tags_bounds :
      (anchors : List Text)
      → let z = image_tags limits tags_page anchors in
        IsDistinct z.state.out
        × (length z.state.requests ≤ limits.page_budget)
        × (length z.state.requests ≤ limits.max_pages * length z.tried)
        × (length z.tried ≤ 2 * length anchors)
  unfolding image_tags
  image_tags_bounds anchors =
      let w : TagWalk = record {
        budget = limits.page_budget;
        requests = [];
        seen = [];
        out = [];
        first_err = none;
      } in
      let (p, q) =
        try_all-IsFrugal w anchors 0 (record { state = w; exhaustive = true; tried = [] })
          (
            record {
              collected = record { distinct = tt; same = λ t. refl };
              paid = refl;
              bound = omega arith;
            },
            omega arith,
          ) in
      (p.collected.distinct, omega (arith, p.paid), omega (arith, p.bound), omega (arith, q))
