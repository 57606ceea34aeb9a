-- ===== src/Registry/Image/Drift.antt =====
-- internal/registry/image.go: the digest that the look-up of a pinned image reports.
use yk_update_checker.Prelude.{
  some, none, inl, inr, List, Bool, Option, ◌≡◌, ◌∷◌, false, ap, sym, [], ◌∙◌, refl, true,
  Bool-cases, ◌⊎◌, Memᴰ,
}
use yk_update_checker.Errkind.{Failure}
use yk_update_checker.Registry.Cache.{Fetched, value, error}
use yk_update_checker.Registry.Image.{
  ImageInfo, TagMeta, Listed, Verified, DatedTag, serves, compare_ranked, compare_listed,
  tag_digest, look_up_from, lookup_image, then_look_up, or_failed, unreachable,
}
use yk_update_checker.Registry.Candidates.{ranked_candidates}
use yk_update_checker.Registry.Scope.{Scope}
use yk_update_checker.Registry.Tag.{TagShape, has_core}
use yk_update_checker.Text.{Text, is_nil, contains, text_eq_refl, text_eq}

-- The digests that a tag serves: its own and those of its platforms.
abbrev pub Serves : TagMeta → Text → Type 0
Serves m digest = (digest ≡ m.digest) ⊎ Memᴰ digest m.children

contains_of_mem : {s : Text} {xs : List Text} → Memᴰ s xs → contains xs s ≡ true
unfolding contains
contains_of_mem {s} (Memᴰ.head e) = rw (← e, text_eq_refl s) refl
contains_of_mem {s} (Memᴰ.tail {x} m) = elim (Bool-cases (text_eq s x)) [
  | inl e ↦ rw e refl
  | inr e ↦ rw e (contains_of_mem m)
]

serves-Serves : (m : TagMeta) (digest : Text) → Serves m digest → serves m digest ≡ true
unfolding serves
serves-Serves m digest (inl e) = rw (← e, text_eq_refl digest) refl
serves-Serves m digest (inr k) = elim (Bool-cases (text_eq digest m.digest)) [
  | inl e ↦ rw e refl
  | inr e ↦ rw e (contains_of_mem k)
]

module _ (image_meta : Text → Text → Fetched TagMeta) (listed : Text → TagShape → Listed)
    (verified : TagShape → List TagShape → List Text → Verified) (dated : Text → DatedTag) where
  compare_ranked-digest :
      (verify : Bool) (cur_tag : Text) (base : TagShape) (l : Listed) (info : ImageInfo)
      (cands : List TagShape)
      → (compare_ranked image_meta listed verified dated verify cur_tag base l info cands).digest
        ≡ info.digest
  unfolding compare_ranked
  compare_ranked-digest verify cur_tag base l info [] = refl
  compare_ranked-digest true cur_tag base l info (c ∷ cands) = refl
  compare_ranked-digest false cur_tag base l info (c ∷ cands) = refl

  or_failed-value :
      (o : Option Failure) (info r : ImageInfo)
      → or_failed image_meta listed verified dated o info ≡ value r
      → info ≡ r
  or_failed-value none info r h = cc h
  or_failed-value (some e) info r h = absurd (cc h)

  compare_listed-digest :
      (verify : Bool) (cur_tag : Text) (base : TagShape) (scope : Scope) (info : ImageInfo)
      (l : Listed) (r : ImageInfo)
      → compare_listed image_meta listed verified dated verify cur_tag base scope info l ≡ value r
      → r.digest ≡ info.digest
  unfolding compare_listed
  compare_listed-digest verify cur_tag base scope info l r h =
      ap (λ (x : ImageInfo). x.digest)
        (sym (
          or_failed-value (unreachable image_meta listed verified dated l)
            (compare_ranked image_meta listed verified dated verify cur_tag base l info
              (ranked_candidates base l.tags scope))
            r h))
      ∙ compare_ranked-digest verify cur_tag base l info (ranked_candidates base l.tags scope)

  module _ (cur_tag pinned : Text) (tagged : is_nil cur_tag ≡ false)
      (is_pinned : is_nil pinned ≡ false) (m : TagMeta) (known : image_meta cur_tag [] ≡ value m)
      (served : Serves m pinned) where
    tag_digest-served :
        (info : ImageInfo)
        → (tag_digest image_meta listed verified dated cur_tag pinned info).digest ≡ pinned
    unfolding tag_digest
    tag_digest-served info = rw (known, tag_digest, serves-Serves m pinned served) refl

    value_digest :
        (x r : ImageInfo)
        → ◌≡◌ {A = Fetched ImageInfo} (value x) (value r)
        → x.digest ≡ pinned
        → r.digest ≡ pinned
    value_digest x r h e = let q : x ≡ r = cc h in rw (← q) e

    look_up_from-served :
        (verify : Bool) (scope : Scope) (base : TagShape) (info r : ImageInfo)
        → look_up_from image_meta listed verified dated verify cur_tag pinned scope (base, info)
          ≡ value r
        → r.digest ≡ pinned
    unfolding look_up_from
    look_up_from-served verify scope base info r h = elim (Bool-cases (has_core base.core)) [
      | inl e ↦
          compare_listed-digest verify cur_tag base scope
            (tag_digest image_meta listed verified dated cur_tag pinned info) (listed cur_tag base)
            r (rw (e, is_pinned, tagged) at h)
          ∙ tag_digest-served info
      | inr e ↦
          let found = rw (e, is_pinned, tagged) at h in
          value_digest _ r found (tag_digest-served info)
    ]

    then_look_up-served :
        (verify : Bool) (scope : Scope) (o : Fetched (TagShape × ImageInfo)) (r : ImageInfo)
        → then_look_up image_meta listed verified dated verify cur_tag pinned scope o ≡ value r
        → r.digest ≡ pinned
    then_look_up-served verify scope (error e) r h = absurd (cc h)
    then_look_up-served verify scope (value (base, info)) r h =
        look_up_from-served verify scope base info r h

    -- The look-up of an image that is pinned to a digest which its tag still serves, whenever it
    -- answers, reports that digest.
    pub lookup_image-served :
        (verify : Bool) (scope : Scope) (r : ImageInfo)
        → lookup_image image_meta listed verified dated verify cur_tag pinned scope ≡ value r
        → r.digest ≡ pinned
    unfolding lookup_image
    lookup_image-served verify scope r h = then_look_up-served verify scope _ r h
