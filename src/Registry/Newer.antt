-- ===== src/Registry/Newer.antt =====
-- internal/registry/image.go: the choice of the newest tag by version (compareVersions). The notes
-- and the push dates beside the choice are left out.
pub mod Laws
use yk_update_checker.Registry.Walk.{Search, image_tags, TagWalk, search_anchors, Limits, Page}
use yk_update_checker.Registry.Scope.{Scope}
use yk_update_checker.Registry.Candidates.{ranked_candidates}
use yk_update_checker.Errkind.{Failure}
use yk_update_checker.Registry.Tag.{TagShape}
use yk_update_checker.Registry.Verify.{ImageMeta, Skipped, verify_candidates, Baseline}
use yk_update_checker.Prelude.{
  Bool, ℕ, Option, List, ◌⊎◌, none, some, inl, ◌∷◌, inr, if◌then◌else◌, [],
}
use yk_update_checker.Text.{Text}

-- The answer of a look-up: the newest tag, if there is one, and the candidates passed over.
pub record Choice : Type 0 where
  pub latest : Option Text
  pub skipped : List Skipped

abbrev pub choice_of : Option Text × List Skipped → Choice
choice_of (best, skipped) = record { latest = best; skipped = skipped }

module _ (gap : ℕ) (image_meta : Text → Option ImageMeta) (sibling_page : TagShape → List Text)
    (has_signatures : Text → Option Bool) where
  -- What is chosen of the ranked candidates; with no verification, the first of them.
  unfoldable pub choose : Bool → ℕ → Baseline → List Text → List TagShape → Choice
  unfolding verify_candidates
  choose verify limit bl tags [] = record { latest = none; skipped = [] }
  choose verify limit bl tags (c ∷ cands) =
      if verify
      then choice_of
          (verify_candidates gap image_meta sibling_page has_signatures limit bl tags (c ∷ cands))
      else record { latest = some c.raw; skipped = [] }

  found_or_error : Option Failure → List Text → Choice → Failure ⊎ Choice
  found_or_error (some e) [] choice = inl e
  found_or_error _ tags choice = inr choice

  compare_found : Bool → ℕ → Scope → Baseline → TagWalk → Failure ⊎ Choice
  unfolding choose ranked_candidates found_or_error
  compare_found verify limit scope bl found =
      found_or_error found.first_err found.out
        (choose verify limit bl found.out (ranked_candidates bl.cur found.out scope))

  -- `compareVersions`, where `bl` is about the base tag
  unfoldable pub compare_versions :
      (limits : Limits)
      → (ℕ → Text → Text → Page)
      → Bool
      → ℕ
      → Scope
      → Text
      → Baseline
      → Failure ⊎ Choice
  unfolding compare_found image_tags search_anchors
  compare_versions limits tags_page verify limit scope cur_tag bl =
      compare_found verify limit scope bl
        (image_tags limits tags_page (search_anchors cur_tag bl.cur.raw)).state
