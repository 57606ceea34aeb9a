-- ===== src/Registry/Newer/Laws.antt =====
-- The newest tag is one of the candidates.
use yk_update_checker.Registry.Verify.Laws.{
  is_rejected, verify_candidates-Verdict, Verdict, keeps, keeps_none,
}
use mathlib.Core.Logic.{∥∥₁_map}
use yk_update_checker.Errkind.{Failure}
use yk_update_checker.Registry.Candidates.{ranked_candidates}
use yk_update_checker.Registry.Candidates.Laws.{IsCandidate, ranked_candidates-mem}
use yk_update_checker.Registry.Walk.{Limits, Page, image_tags, search_anchors}
use yk_update_checker.Registry.Scope.{Scope}
use yk_update_checker.Registry.Newer.{
  compare_versions, choose, found_or_error, Choice, compare_found,
}
use yk_update_checker.Registry.Verify.{ImageMeta, Baseline, Skipped}
use yk_update_checker.Registry.Tag.{TagShape}
use mathlib.Core.List.Memᴰ
use yk_update_checker.Prelude.{
  ◌≡◌, List, ℕ, Option, Memᴰ, ◌++◌, Bool, take, ◌∷◌, suc, some, inl, [], true, refl, inr, ap, none,
  zero, false, ◌∙◌,
}
use yk_update_checker.Text.{Text}

mem_take : (n : ℕ) (l : List TagShape) {c : TagShape} → Memᴰ c (take n l) → Memᴰ c l
mem_take zero l m = elim m [ ]
mem_take (suc n) [] m = elim m [ ]
mem_take (suc n) (x ∷ xs) m = elim (Memᴰ.cases_cons m) [
  | inl e ↦ Memᴰ.head e
  | inr k ↦ Memᴰ.tail (mem_take n xs k)
]

mem_middle :
    (front : List TagShape) (c : TagShape) (back : List TagShape) → Memᴰ c (front ++ c ∷ back)
mem_middle [] c back = Memᴰ.head refl
mem_middle (x ∷ front) c back = Memᴰ.tail (mem_middle front c back)

module _ (gap : ℕ) (image_meta : Text → Option ImageMeta) (sibling_page : TagShape → List Text)
    (has_signatures : Text → Option Bool) where
  -- A candidate among the shapes given, with its text, that verification lets through if it is on.
  record Chosen (verify : Bool) (bl : Baseline) (tags : List Text) (cands : List TagShape)
      (latest : Text) : Type 0 where
    cand : TagShape
    spelt : cand.raw ≡ latest
    among : Memᴰ cand cands
    kept :
        verify ≡ true → is_rejected gap image_meta sibling_page has_signatures bl tags cand ≡ false

  Verdict-Chosen :
      (bl : Baseline) (tags : List Text) (cands : List TagShape) (best : Option Text)
      (skipped : List Skipped) (latest : Text)
      → Verdict gap image_meta sibling_page has_signatures bl tags cands best skipped
      → best ≡ some latest
      → Chosen true bl tags cands latest
  Verdict-Chosen bl tags cands best skipped latest (keeps front cand back e r k) h = record {
    cand = cand;
    spelt = cc h;
    among = rw e (mem_middle front cand back);
    kept = λ _. k;
  }
  Verdict-Chosen bl tags cands best skipped latest (keeps_none r) h = absurd (cc h)

  choose-Chosen :
      (verify : Bool) (limit : ℕ) (bl : Baseline) (tags : List Text) (cands : List TagShape)
      (latest : Text)
      → (choose gap image_meta sibling_page has_signatures verify limit bl tags cands).latest
        ≡ some latest
      → Chosen verify bl tags cands latest
  unfolding choose
  choose-Chosen verify limit bl tags [] latest h = absurd (cc h)
  choose-Chosen false limit bl tags (c ∷ cands) latest h = record {
    cand = c;
    spelt = cc h;
    among = Memᴰ.head refl;
    kept = λ e. absurd (cc e);
  }
  choose-Chosen true limit bl tags (c ∷ cands) latest h =
      let v =
        Verdict-Chosen bl tags (take limit (c ∷ cands)) _ _ latest
          (verify_candidates-Verdict gap image_meta sibling_page has_signatures limit bl tags
            (c ∷ cands))
          h in
      record {
        cand = v.cand;
        spelt = v.spelt;
        among = mem_take limit (c ∷ cands) v.among;
        kept = v.kept;
      }

  found_or_error-choice :
      (o : Option Failure) (tags : List Text) (x y : Choice)
      → found_or_error gap image_meta sibling_page has_signatures o tags x ≡ inr y
      → x ≡ y
  unfolding found_or_error
  found_or_error-choice none tags x y h = cc h
  found_or_error-choice (some e) [] x y h = absurd (cc h)
  found_or_error-choice (some e) (t ∷ tags) x y h = cc h

  -- What the answer promises of the newest tag.
  pub record IsNewest (verify : Bool) (scope : Scope) (bl : Baseline) (tags : List Text)
      (latest : Text) : Type 0 where
    pub cand : TagShape
    pub spelt : cand.raw ≡ latest
    pub candidate : IsCandidate bl.cur tags scope cand
    pub kept :
        verify ≡ true → is_rejected gap image_meta sibling_page has_signatures bl tags cand ≡ false

  IsNewest-of :
      (verify : Bool) (scope : Scope) (bl : Baseline) (tags : List Text) (latest : Text)
      → Chosen verify bl tags (ranked_candidates bl.cur tags scope) latest
      → ∥ IsNewest verify scope bl tags latest ∥₁
  IsNewest-of verify scope bl tags latest c =
      ∥∥₁_map ((ranked_candidates-mem bl.cur scope tags c.cand).0 ∣ c.among ∣₁)
        (λ k. record { cand = c.cand; spelt = c.spelt; candidate = k; kept = c.kept })

  -- What the search has listed for the current tag.
  abbrev pub tags_listed : Limits → (ℕ → Text → Text → Page) → Text → Baseline → List Text
  tags_listed limits tags_page cur_tag bl =
      (image_tags limits tags_page (search_anchors cur_tag bl.cur.raw)).state.out

  -- A newest tag that is answered is the text of a tag that the search has listed and that outranks
  -- the base tag, within the scope; and if verification is on, its signals do not reject it.
  pub compare_versions-IsNewest :
      (limits : Limits) (tags_page : ℕ → Text → Text → Page) (verify : Bool) (limit : ℕ)
      (scope : Scope) (cur_tag : Text) (bl : Baseline) (choice : Choice) (latest : Text)
      → compare_versions gap image_meta sibling_page has_signatures limits tags_page verify limit
          scope cur_tag bl
        ≡ inr choice
      → choice.latest ≡ some latest
      → ∥ IsNewest verify scope bl (tags_listed limits tags_page cur_tag bl) latest ∥₁
  unfolding compare_versions compare_found
  compare_versions-IsNewest limits tags_page verify limit scope cur_tag bl choice latest h k =
      let tags = tags_listed limits tags_page cur_tag bl in
      let same = found_or_error-choice _ tags _ choice h in
      IsNewest-of verify scope bl tags latest (
        choose-Chosen verify limit bl tags (ranked_candidates bl.cur tags scope) latest
          (ap (λ (c : Choice). c.latest) same ∙ k))
