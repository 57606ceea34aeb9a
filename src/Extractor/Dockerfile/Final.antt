-- ===== src/Extractor/Dockerfile/Final.antt =====
-- internal/extractor/dockerfile.go: which of the references of a build is flagged as the final
-- stage.
use mathlib.Core.List.{append_assoc, append-nil}
use mathlib.Core.Path.{subst}
use yk_update_checker.Extractor.Paths.{base_name}
use yk_update_checker.Extractor.ImageRef.{ImageRef, parse_image_ref}
use yk_update_checker.Extractor.Ref.{Ref}
use yk_update_checker.Text.{Text}
use yk_update_checker.Prelude.{
  Option, List, ℕ, ◌+◌, ◌<◌, All, ◌++◌, ◌≡◌, true, false, ◌∷◌, some, length, [], ◌≤◌, All-append,
  arith, Bool-cases, ap, if◌then◌else◌, none, ◌∙◌, inl, refl, sym, inr, suc,
}
use yk_update_checker.Extractor.Dockerfile.{
  BuildStage, checkable, final_stage_from, stage_refs, extract_dockerfile, parse_froms, stage_ref,
  checked_ref,
}

-- A stage that is passed over does not become the final one.
final_stage_from-none :
    (i : ℕ) (found : Option ℕ) (sts : List BuildStage)
    → All (λ st. checkable st ≡ false) sts
    → final_stage_from i found sts ≡ found
unfolding final_stage_from
final_stage_from-none i found [] h = refl
final_stage_from-none i found (st ∷ sts) (p, h) = rw p (final_stage_from-none (i + 1) found sts h)

-- The final stage is the last one that can be checked.
final_stage_from-last :
    (i : ℕ) (found : Option ℕ) (front : List BuildStage) (st : BuildStage) (back : List BuildStage)
    → checkable st ≡ true
    → All (λ s. checkable s ≡ false) back
    → final_stage_from i found (front ++ st ∷ back) ≡ some (i + length front)
unfolding final_stage_from
final_stage_from-last i found [] st back h k =
    final_stage_from-none (i + 1) (if checkable st then some i else found) back k
    ∙ rw h (ap some (omega arith))
final_stage_from-last i found (s ∷ front) st back h k =
    final_stage_from-last (i + 1) (if checkable s then some i else found) front st back h k
    ∙ ap some (omega arith)

module _ (base : Text) (final : Option ℕ) where
  stage_refs-append :
      (i : ℕ) (front back : List BuildStage)
      → stage_refs base final i (front ++ back)
        ≡ stage_refs base final i front ++ stage_refs base final (i + length front) back
  unfolding stage_refs
  stage_refs-append i [] back = ap (λ k. stage_refs base final k back) (omega arith)
  stage_refs-append i (st ∷ front) back =
      ap (λ rs. checked_ref base final i st ++ rs)
        (stage_refs-append (i + 1) front back
          ∙ ap (λ k. stage_refs base final (i + 1) front ++ stage_refs base final k back)
              (omega arith))
      ∙ sym (
          append_assoc (checked_ref base final i st) (stage_refs base final (i + 1) front)
            (stage_refs base final (i + suc (length front)) back))

  stage_refs-none :
      (i : ℕ) (sts : List BuildStage)
      → All (λ st. checkable st ≡ false) sts
      → stage_refs base final i sts ≡ []
  unfolding stage_refs checked_ref
  stage_refs-none i [] h = refl
  stage_refs-none i (st ∷ sts) (p, h) = rw p (stage_refs-none (i + 1) sts h)

  -- What the stage at hand and the unusable ones behind it give.
  stage_refs-single :
      (i : ℕ) (st : BuildStage) (back : List BuildStage)
      → checkable st ≡ true
      → All (λ s. checkable s ≡ false) back
      → stage_refs base final i (st ∷ back) ≡ stage_ref base final i st (parse_image_ref st.image)
  unfolding stage_refs checked_ref
  stage_refs-single i st back h k =
      ap (λ rs. checked_ref base final i st ++ rs) (stage_refs-none (i + 1) back k)
      ∙ append-nil (checked_ref base final i st)
      ∙ rw h refl

  stage_refs-last :
      (i : ℕ) (front : List BuildStage) (st : BuildStage) (back : List BuildStage)
      → checkable st ≡ true
      → All (λ s. checkable s ≡ false) back
      → stage_refs base final i (front ++ st ∷ back)
        ≡ stage_refs base final i front
          ++ stage_ref base final (i + length front) st (parse_image_ref st.image)
  stage_refs-last i front st back h k =
      stage_refs-append i front (st ∷ back)
      ∙ ap (λ rs. stage_refs base final i front ++ rs)
          (stage_refs-single (i + length front) st back h k)

abbrev NotFinal : List Ref → Type 0
NotFinal = All (λ (r : Ref). r.final_stage ≡ false)

-- The references of stages in front of the final one are not flagged.
stage_ref-NotFinal :
    (base : Text) (i j : ℕ) (st : BuildStage) (o : Option ImageRef)
    → i < j
    → NotFinal (stage_ref base (some j) i st o)
unfolding stage_ref
stage_ref-NotFinal base i j st none h = tt
stage_ref-NotFinal base i j st (some r) h = (ground arith, tt)

checked_ref-NotFinal :
    (base : Text) (i j : ℕ) (st : BuildStage) → i < j → NotFinal (checked_ref base (some j) i st)
unfolding checked_ref
checked_ref-NotFinal base i j st h = elim (Bool-cases (checkable st)) [
  | inl e ↦ rw e (stage_ref-NotFinal base i j st (parse_image_ref st.image) h)
  | inr e ↦ rw e tt
]

stage_refs-NotFinal :
    (base : Text) (i j : ℕ) (sts : List BuildStage)
    → i + length sts ≤ j
    → NotFinal (stage_refs base (some j) i sts)
unfolding stage_refs
stage_refs-NotFinal base i j [] h = tt
stage_refs-NotFinal base i j (st ∷ sts) h =
    All-append (λ (r : Ref). r.final_stage ≡ false) (checked_ref base (some j) i st)
      (stage_refs base (some j) (i + 1) sts) (checked_ref-NotFinal base i j st (omega (arith, h)))
      (stage_refs-NotFinal base (i + 1) j sts (omega (arith, h)))

-- The references of a build whose last checkable stage has this image: one that is flagged, after
-- others that are not; only others when the image does not parse.
abbrev pub EndsWith : Option ImageRef → List Ref → Type 0
EndsWith none refs = NotFinal refs
EndsWith (some image) refs =
    (others : List Ref) × (last : Ref) × (refs ≡ others ++ last ∷ [])
    × NotFinal others
    × (last.final_stage ≡ true)
    × (last.repository ≡ image.repository)
    × (last.name ≡ image.name)
    × (last.current_version ≡ image.tag)
    × (last.digest ≡ image.digest)

stage_ref-EndsWith :
    (base : Text) (j : ℕ) (st : BuildStage) (o : Option ImageRef) (others : List Ref)
    → NotFinal others
    → EndsWith o (others ++ stage_ref base (some j) j st o)
unfolding stage_ref
stage_ref-EndsWith base j st none others h =
    All-append (λ (r : Ref). r.final_stage ≡ false) others [] h tt
stage_ref-EndsWith base j st (some image) others h =
    (others, _, refl, h, ground arith, refl, refl, refl, refl)

-- Of the stages of a build file, let `st` be the last one that can be checked. The references
-- extracted from the file end with the one of `st`, which is flagged as the final stage and has the
-- repository, name, tag and digest of its image, and no other is flagged; where the image of `st` is
-- no image reference, none is flagged.
pub extract_dockerfile-final :
    (path content : Text) (front : List BuildStage) (st : BuildStage) (back : List BuildStage)
    → parse_froms content ≡ front ++ st ∷ back
    → checkable st ≡ true
    → All (λ s. checkable s ≡ false) back
    → EndsWith (parse_image_ref st.image) (extract_dockerfile path content)
unfolding extract_dockerfile
extract_dockerfile-final path content front st back e h k =
    let at_end = final_stage_from-last 0 none front st back h k in
    subst (EndsWith (parse_image_ref st.image))
      (sym (
        rw (e, at_end)
          (stage_refs-last (base_name path) (some (0 + length front)) 0 front st back h k)))
      (stage_ref-EndsWith (base_name path) (0 + length front) st (parse_image_ref st.image)
        (stage_refs (base_name path) (some (0 + length front)) 0 front)
        (stage_refs-NotFinal (base_name path) 0 (0 + length front) front (omega arith)))
