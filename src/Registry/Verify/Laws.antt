-- ===== src/Registry/Verify/Laws.antt =====
-- Which candidate verification picks, and what it reports of the ones before.
use yk_update_checker.Prelude.{
  List, ℕ, Bool, ◌≡◌, true, Option, any, ◌+◌, some, map, length, take, ◌∷◌, [], ◌≤◌, ◌<◌, ◌++◌,
  arith, false, suc, ap, Bool-cases, All, none, zero, inl, inr, refl, ◌∙◌, ◌⊎◌, ==_iff,
}
use mathlib.Core.List.{append_assoc, append-nil}
use yk_update_checker.Text.{Text}
use yk_update_checker.Registry.Tag.{TagShape, classify_tag, kind_eq, semver, TagKind}
use yk_update_checker.Registry.Order.{group, is_prerelease}
use yk_update_checker.Registry.Verify.{
  ImageMeta, Baseline, Skipped, rejects, candidate_signals, report, first_kept, verify_candidates,
  major_jump, same_series, in_gap, own_pre_release, groups_match,
}

module _ (gap : ℕ) (image_meta : Text → Option ImageMeta) (sibling_page : TagShape → List Text)
    (has_signatures : Text → Option Bool) where
  abbrev pub is_rejected : Baseline → List Text → TagShape → Bool
  is_rejected bl tags cand =
      rejects (candidate_signals gap image_meta sibling_page has_signatures bl tags cand)

  abbrev reported : Baseline → List Text → List TagShape → List Skipped
  reported bl tags cands = map (report gap image_meta sibling_page has_signatures bl tags) cands

  -- The candidates in front of the kept one, or all where none is kept, are the rejected ones.
  pub data Verdict (bl : Baseline) (tags : List Text) (cands : List TagShape)
      : Option Text → List Skipped → Type 0 where
    keeps :
        (front : List TagShape) (cand : TagShape) (back : List TagShape)
        → cands ≡ front ++ cand ∷ back
        → All (λ c. is_rejected bl tags c ≡ true) front
        → is_rejected bl tags cand ≡ false
        → Verdict bl tags cands (some cand.raw) (reported bl tags front)
    keeps_none :
        All (λ c. is_rejected bl tags c ≡ true) cands
        → Verdict bl tags cands none (reported bl tags cands)

  module _ (bl : Baseline) (tags : List Text) where
    Verdict-cons :
        (c : TagShape) (cands : List TagShape) (best : Option Text) (skipped : List Skipped)
        → is_rejected bl tags c ≡ true
        → Verdict bl tags cands best skipped
        → Verdict bl tags (c ∷ cands) best (reported bl tags (c ∷ []) ++ skipped)
    Verdict-cons c cands best skipped h (keeps front cand back e r k) =
        keeps (c ∷ front) cand back (ap (λ l. c ∷ l) e) (h, r) k
    Verdict-cons c cands best skipped h (keeps_none r) = keeps_none (h, r)

    -- What was rejected before is in front of the rest.
    first_kept-append :
        (cands : List TagShape) (skipped : List Skipped)
        → first_kept gap image_meta sibling_page has_signatures bl tags skipped cands ≡ (
          (first_kept gap image_meta sibling_page has_signatures bl tags [] cands).0,
          skipped ++ (first_kept gap image_meta sibling_page has_signatures bl tags [] cands).1,
        )
    unfolding first_kept
    first_kept-append [] skipped = ground (arith, append-nil skipped)
    first_kept-append (c ∷ cands) skipped = elim (Bool-cases (is_rejected bl tags c)) [
      | inl h ↦
          rw (h, first_kept)
            (ground (
              arith,
              first_kept-append cands (skipped ++ reported bl tags (c ∷ [])),
              first_kept-append cands (reported bl tags (c ∷ [])),
              append_assoc skipped (reported bl tags (c ∷ []))
                  (first_kept gap image_meta sibling_page has_signatures bl tags [] cands).1,
            ))
      | inr h ↦ rw (h, first_kept) (ground (arith, append-nil skipped))
    ]

    first_kept-Verdict :
        (cands : List TagShape)
        → Verdict bl tags cands
            (first_kept gap image_meta sibling_page has_signatures bl tags [] cands).0
            (first_kept gap image_meta sibling_page has_signatures bl tags [] cands).1
    unfolding first_kept
    first_kept-Verdict [] = keeps_none tt
    first_kept-Verdict (c ∷ cands) = elim (Bool-cases (is_rejected bl tags c)) [
      | inl h ↦
          rw (h, first_kept)
            (rw (first_kept-append cands (reported bl tags (c ∷ [])))
              (Verdict-cons c cands _ _ h (first_kept-Verdict cands)))
      | inr h ↦ rw (h, first_kept) (keeps [] c cands refl tt h)
    ]

  -- Verification picks the first of the best-ranked candidates, as many as the limit allows, that is
  -- not rejected, and reports exactly the ones in front of it, in order, with their reasons; if it
  -- picks none, all of those candidates are rejected and reported.
  pub verify_candidates-Verdict :
      (limit : ℕ) (bl : Baseline) (tags : List Text) (ranked : List TagShape)
      → let found =
          verify_candidates gap image_meta sibling_page has_signatures limit bl tags ranked in
        Verdict bl tags (take limit ranked) found.0 found.1
  unfolding verify_candidates
  verify_candidates-Verdict limit bl tags ranked = first_kept-Verdict bl tags (take limit ranked)

-- A listed tag that is not of the candidate's series, or whose major lies outside the gap.
abbrev pub OutsideGap : TagShape → ℕ → ℕ → Text → Type 0
OutsideGap cand from to raw =
    (same_series (classify_tag raw) cand ≡ false)
    ⊎ (group (classify_tag raw).core 0 < from)
    ⊎ (to < group (classify_tag raw).core 0)

outside_of_in_gap :
    (cand : TagShape) (from to : ℕ) (raw : Text)
    → in_gap cand from to raw ≡ false
    → OutsideGap cand from to raw
unfolding in_gap
outside_of_in_gap cand from to raw h = ground arith

any-OutsideGap :
    (cand : TagShape) (from to : ℕ) (l : List Text)
    → any (in_gap cand from to) l ≡ false
    → All (OutsideGap cand from to) l
any-OutsideGap cand from to [] h = tt
any-OutsideGap cand from to (a ∷ l) h =
    (outside_of_in_gap cand from to a (ground arith), any-OutsideGap cand from to l (ground arith))

-- The majors that a candidate jumps over: from the one after the current to the one before the
-- candidate's, of which the listing has no tag in the candidate's series.
pub record Jumps (cur cand : TagShape) (tags : List Text) (from to : ℕ) : Type 0 where
  pub starts : from ≡ group cur.core 0 + 1
  pub ends : to + 1 ≡ group cand.core 0
  pub some_skipped : from ≤ to
  pub semantic : cur.kind ≡ semver
  pub none_listed : All (OutsideGap cand from to) tags

kind_eq-semver : (k : TagKind) → kind_eq k semver ≡ true → k ≡ semver
unfolding kind_eq
kind_eq-semver k h = ground arith

-- A reported jump is from a semantic version, runs from the major after the current one to the one
-- before the candidate's, leaves out at least one major, and the listing has no tag of the
-- candidate's series in any of the majors left out.
pub major_jump-Jumps :
    (cur cand : TagShape) (tags : List Text) (from to : ℕ)
    → major_jump cur cand tags ≡ some (from, to)
    → Jumps cur cand tags from to
unfolding major_jump
major_jump-Jumps cur cand tags from to h = record {
  starts = ground arith;
  ends = ground arith;
  some_skipped = ground arith;
  semantic = kind_eq-semver cur.kind (ground arith);
  none_listed = any-OutsideGap cand from to tags (ground arith);
}

groups_match-group :
    (core : List ℕ) (i : ℕ) (gs : List ℕ)
    → groups_match core i gs ≡ true
    → (j : ℕ) → j < length gs
    → group core (i + j) ≡ group gs j
unfolding groups_match group
groups_match-group core i [] h j k = absurd (omega arith)
groups_match-group core i (g ∷ gs) h zero k =
    ap (group core) (omega arith) ∙ (==_iff (group core i) g).0 (ground arith)
groups_match-group core i (g ∷ gs) h (suc j) k =
    ap (group core) (omega arith)
    ∙ groups_match-group core (i + 1) gs (ground arith) j (omega arith)

-- A tag that counts as the candidate's own pre-release is a pre-release, and has at least the
-- candidate's groups, with the same numbers.
pub own_pre_release-groups :
    (other cand : TagShape)
    → own_pre_release other cand ≡ true
    → (is_prerelease other ≡ true)
      × (length cand.core ≤ length other.core)
      × ((j : ℕ) → j < length cand.core → group other.core j ≡ group cand.core j)
unfolding own_pre_release
own_pre_release-groups other cand h = (
  ground arith,
  ground arith,
  λ j k.
      ap (group other.core) (omega arith)
      ∙ groups_match-group other.core 0 cand.core (ground arith) j k,
)
