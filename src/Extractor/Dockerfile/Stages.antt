-- ===== src/Extractor/Dockerfile/Stages.antt =====
-- internal/extractor/dockerfile.go: which stage of a build an extracted reference comes from.
use yk_update_checker.Extractor.Paths.{base_name}
use yk_update_checker.Registry.Tag.{has_code}
use yk_update_checker.Text.{Text, contains, to_lower, fields, is_space, text_eq}
use yk_update_checker.Extractor.Ref.{Ref}
use yk_update_checker.Extractor.ImageRef.{ImageRef, parse_image_ref}
use mathlib.Core.List.Memᴰ
use yk_update_checker.Prelude.{
  Option, ℕ, Memᴰ, List, ◌∷◌, ◌≡◌, refl, true, false, [], ◌≢◌, All, Option-cases, arith, ◌++◌, inl,
  Bool-cases, inr, ◌+◌, ap, length, ◌∙◌, none,
}
use yk_update_checker.Prelude.{some}
use yk_update_checker.Extractor.Dockerfile.{
  BuildStage, checkable, stage_ref, stage_of, note_alias, from_arguments, from_words, stages_of,
  stages_of, from_arguments, note_alias, checked_ref, stage_label, stage_refs, extract_dockerfile,
  parse_froms, final_stage_from, split_logical_lines,
}

-- No later stage builds on an alias that is seen.
Fresh : List Text → List BuildStage → Type 0
Fresh seen [] = Unit
Fresh seen (st ∷ sts) =
    (checkable st ≡ true → contains seen (to_lower st.image) ≡ false)
    × Fresh (note_alias seen st.alias) sts

stage_of-fresh :
    (seen : List Text) (words : Text × Text)
    → checkable (stage_of seen words) ≡ true
    → contains seen (to_lower (stage_of seen words).image) ≡ false
unfolding stage_of checkable
stage_of-fresh seen (image, alias) h = elim (Bool-cases (has_code b'$' image)) [
  | inl e ↦ absurd (unset e)
  | inr e ↦ rw e (ground (arith, h, e))
]
  where
    unset : has_code b'$' image ≡ true → ⊥
    unset e = ground (arith, h, e)

stage_of-alias : (seen : List Text) (words : Text × Text) → (stage_of seen words).alias ≡ words.1
unfolding stage_of
stage_of-alias seen (image, alias) = refl

stages_of-Fresh : (seen lines : List Text) → Fresh seen (stages_of seen lines)
unfolding Fresh stages_of
stages_of-Fresh seen [] = tt
stages_of-Fresh seen (raw ∷ lines) = elim (Option-cases (from_arguments raw)) [
  | inl e ↦ rw (e, stages_of) (stages_of-Fresh seen lines)
  | inr (args, e) ↦
      let words = from_words [] [] (fields is_space args) in
      rw (e, stages_of)
        (
          stage_of-fresh seen words,
          rw (stage_of-alias seen words) (stages_of-Fresh (note_alias seen words.1) lines),
        )
]

-- A text that is not among the aliases seen after a stage was not before, and is not the stage's.
note_alias-new :
    (seen : List Text) (alias base : Text)
    → base ≢ []
    → contains (note_alias seen alias) (to_lower base) ≡ false
    → (contains seen (to_lower base) ≡ false) × (text_eq (to_lower base) (to_lower alias) ≡ false)
unfolding note_alias contains
note_alias-new seen [] [] n h = absurd (n refl)
note_alias-new seen [] (c ∷ base) n h = (h, refl)
note_alias-new seen (a ∷ alias) base n h = ground (arith, h)

-- The image of a checkable stage of a build is no alias of an earlier one.
abbrev pub NotAliasIn : BuildStage → List BuildStage → Type 0
NotAliasIn st = All (λ (s : BuildStage). text_eq (to_lower st.image) (to_lower s.alias) ≡ false)

checkable-named : (st : BuildStage) → checkable st ≡ true → st.image ≢ []
unfolding checkable
checkable-named st h = λ e. ground (arith, h, e)

Fresh-NotAliasIn :
    (seen : List Text) (front : List BuildStage) (st : BuildStage) (back : List BuildStage)
    → Fresh seen (front ++ st ∷ back)
    → checkable st ≡ true
    → (contains seen (to_lower st.image) ≡ false) × NotAliasIn st front
unfolding Fresh
Fresh-NotAliasIn seen [] st back (f, _) h = (f h, tt)
Fresh-NotAliasIn seen (s ∷ front) st back (_, f) h =
    let (unseen, later) = Fresh-NotAliasIn (note_alias seen s.alias) front st back f h in
    let (before, here) = note_alias-new seen s.alias st.image (checkable-named st h) unseen in
    (before, (here, later))

-- A stage among others that the reference `r` was made of, the first of them at index `i`.
pub record Origin (base : Text) (i : ℕ) (sts : List BuildStage) (r : Ref) : Type 0 where
  pub front : List BuildStage
  pub stage : BuildStage
  pub back : List BuildStage
  pub image : ImageRef
  pub in_order : sts ≡ front ++ stage ∷ back
  pub is_checkable : checkable stage ≡ true
  pub is_image : parse_image_ref stage.image ≡ some image
  pub has_repository : r.repository ≡ image.repository
  pub has_tag : r.current_version ≡ image.tag
  pub has_digest : r.digest ≡ image.digest
  pub has_label : r.chart ≡ stage_label base (i + length front) stage

module _ (base : Text) (final : Option ℕ) where
  stage_ref-Origin :
      (i : ℕ) (st : BuildStage) (o : Option ImageRef) (sts : List BuildStage) {r : Ref}
      → checkable st ≡ true
      → parse_image_ref st.image ≡ o
      → Memᴰ r (stage_ref base final i st o)
      → Origin base i (st ∷ sts) r
  unfolding stage_ref
  stage_ref-Origin i st none sts h e m = elim m [ ]
  stage_ref-Origin i st (some im) sts h e (Memᴰ.tail m) = elim m [ ]
  stage_ref-Origin i st (some im) sts h e (Memᴰ.head q) = record {
    front = [];
    stage = st;
    back = sts;
    image = im;
    in_order = refl;
    is_checkable = h;
    is_image = e;
    has_repository = ap (λ (x : Ref). x.repository) q;
    has_tag = ap (λ (x : Ref). x.current_version) q;
    has_digest = ap (λ (x : Ref). x.digest) q;
    has_label = ap (λ (x : Ref). x.chart) q ∙ rw plus_zero refl;
  }
    where
      plus_zero : i + 0 ≡ i
      plus_zero = omega arith

  checked_ref-Origin :
      (i : ℕ) (st : BuildStage) (sts : List BuildStage) {r : Ref}
      → Memᴰ r (checked_ref base final i st)
      → Origin base i (st ∷ sts) r
  unfolding checked_ref
  checked_ref-Origin i st sts {r} m = elim (Bool-cases (checkable st)) [
    | inl e ↦ stage_ref-Origin i st (parse_image_ref st.image) sts e refl (rw e at m)
    | inr e ↦ absurd (none_of (rw e at m))
  ]
    where
      none_of : Memᴰ r [] → ⊥
      none_of k = elim k [ ]

  later :
      {i : ℕ} (st : BuildStage) {sts : List BuildStage} {r : Ref}
      → Origin base (i + 1) sts r
      → Origin base i (st ∷ sts) r
  later {i} st o = record {
    front = st ∷ o.front;
    stage = o.stage;
    back = o.back;
    image = o.image;
    in_order = ap (λ l. st ∷ l) o.in_order;
    is_checkable = o.is_checkable;
    is_image = o.is_image;
    has_repository = o.has_repository;
    has_tag = o.has_tag;
    has_digest = o.has_digest;
    has_label = o.has_label ∙ ap (λ k. stage_label base k o.stage) (omega arith);
  }

  stage_refs-Origin :
      (i : ℕ) (sts : List BuildStage) {r : Ref}
      → Memᴰ r (stage_refs base final i sts)
      → Origin base i sts r
  unfolding stage_refs
  stage_refs-Origin i [] m = elim m [ ]
  stage_refs-Origin i (st ∷ sts) m = elim (Memᴰ.append_cases (checked_ref base final i st) m) [
    | inl k ↦ checked_ref-Origin i st sts k
    | inr k ↦ later st (stage_refs-Origin (i + 1) sts k)
  ]

-- Every reference extracted from a build file is that of a checkable stage of the build: it has the
-- repository, tag and digest of the stage's image and the label of the stage at its index, and the
-- image is, up to case, no alias of a stage in front of it.
pub extract_dockerfile-Origin :
    (path content : Text) {r : Ref}
    → Memᴰ r (extract_dockerfile path content)
    → (o : Origin (base_name path) 0 (parse_froms content) r) × NotAliasIn o.stage o.front
unfolding extract_dockerfile
extract_dockerfile-Origin path content m =
    let stages = parse_froms content in
    let o = stage_refs-Origin (base_name path) (final_stage_from 0 none stages) 0 stages m in
    let fresh = stages_of-Fresh [] (split_logical_lines content) in
    (o, (Fresh-NotAliasIn [] o.front o.stage o.back (rw o.in_order at fresh) o.is_checkable).1)
