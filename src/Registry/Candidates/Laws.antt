-- ===== src/Registry/Candidates/Laws.antt =====
-- What the ranked candidates are: which tags, and in which order.
use yk_update_checker.Prelude.{
  ◌≡◌, List, ◌∷◌, false, Memᴰ, ◌↔◌, Bool-cases, true, ◌≢◌, refl, inl, inr, ◌∙◌, ap, ◌⊎◌, [],
}
use mathlib.Core.List.{Perm, Mem}
use mathlib.Core.List.Perm
use mathlib.Core.Logic.{∥∥₁_map}
use mathlib.Core.List.Memᴰ
use yk_update_checker.Text.{Text, text_eq, text_eq_iff}
use yk_update_checker.Registry.Tag.{TagShape, classify_tag}
use yk_update_checker.Registry.Scope.{Scope}
use yk_update_checker.Registry.Candidates.{
  outranks, collect_candidates, ranked_candidates, sort_stable,
}
use yk_update_checker.Registry.Candidates.Outranks.{Outranks, outranks_iff}
use yk_update_checker.Registry.Candidates.Sorted.{sort_stable-perm, sort_stable-IsRanked, IsRanked}

-- A tag of the listing, other than the current one, whose shape outranks the current shape.
pub record IsCandidate (cur : TagShape) (tags : List Text) (scope : Scope) (cand : TagShape)
    : Type 0 where
  pub raw : Text
  pub listed : Memᴰ raw tags
  pub other : raw ≢ cur.raw
  pub shape : cand ≡ classify_tag raw
  pub better : Outranks cur scope cand

module _ (cur : TagShape) (scope : Scope) where
  IsCandidate-cons :
      {cand : TagShape} (raw : Text) (tags : List Text)
      → IsCandidate cur tags scope cand
      → IsCandidate cur (raw ∷ tags) scope cand
  IsCandidate-cons raw tags c = record {
    raw = c.raw;
    listed = Memᴰ.tail c.listed;
    other = c.other;
    shape = c.shape;
    better = c.better;
  }

  text_ne : (s t : Text) → text_eq s t ≡ false → s ≢ t
  text_ne s t h e = cc ((text_eq_iff s t).1 e)

  IsCandidate-head :
      {cand : TagShape} (raw : Text) (tags : List Text)
      → text_eq raw cur.raw ≡ false
      → outranks cur scope (classify_tag raw) ≡ true
      → cand ≡ classify_tag raw
      → IsCandidate cur (raw ∷ tags) scope cand
  IsCandidate-head {cand} raw tags e f same = record {
    raw = raw;
    listed = Memᴰ.head refl;
    other = text_ne raw cur.raw e;
    shape = same;
    better = (outranks_iff cur scope cand).0 (rw same f);
  }

  collect_sound :
      {cand : TagShape} (tags : List Text)
      → Memᴰ cand (collect_candidates cur tags scope)
      → IsCandidate cur tags scope cand
  unfolding collect_candidates
  collect_sound {cand} [] m = elim m [ ]
  collect_sound {cand} (raw ∷ tags) m = elim (Bool-cases (text_eq raw cur.raw)) [
    | inl e ↦ IsCandidate-cons raw tags (collect_sound tags (rw e at m))
    | inr e ↦ elim (Bool-cases (outranks cur scope (classify_tag raw))) [
      | inr f ↦ IsCandidate-cons raw tags (collect_sound tags (rw f at (rw e at m)))
      | inl f ↦ first e f (Memᴰ.cases_cons (rw f at (rw e at m))) (collect_sound tags)
    ]
  ]
    where
      first :
          text_eq raw cur.raw ≡ false
          → outranks cur scope (classify_tag raw) ≡ true
          → (cand ≡ classify_tag raw) ⊎ Memᴰ cand (collect_candidates cur tags scope)
          → (Memᴰ cand (collect_candidates cur tags scope) → IsCandidate cur tags scope cand)
          → IsCandidate cur (raw ∷ tags) scope cand
      first e f (inl same) ih = IsCandidate-head raw tags e f same
      first e f (inr m) ih = IsCandidate-cons raw tags (ih m)

  collect_cons :
      {cand : TagShape} (raw : Text) (tags : List Text)
      → Memᴰ cand (collect_candidates cur tags scope)
      → Memᴰ cand (collect_candidates cur (raw ∷ tags) scope)
  unfolding collect_candidates
  collect_cons raw tags m = elim (Bool-cases (text_eq raw cur.raw)) [
    | inl e ↦ rw e m
    | inr e ↦ rw e (elim (Bool-cases (outranks cur scope (classify_tag raw))) [
      | inl f ↦ rw f (Memᴰ.tail m)
      | inr f ↦ rw f m
    ])
  ]

  collect_complete :
      {raw : Text} {tags : List Text}
      → Memᴰ raw tags
      → raw ≢ cur.raw
      → outranks cur scope (classify_tag raw) ≡ true
      → Memᴰ (classify_tag raw) (collect_candidates cur tags scope)
  unfolding collect_candidates
  collect_complete {raw} (Memᴰ.head {x} e) ne h = elim (Bool-cases (text_eq x cur.raw)) [
    | inl f ↦ absurd (ne (e ∙ (text_eq_iff x cur.raw).0 f))
    | inr f ↦ rw f (rw (rw e at h) (Memᴰ.head (ap classify_tag e)))
  ]
  collect_complete (Memᴰ.tail {x} {xs} m) ne h = collect_cons x xs (collect_complete m ne h)

  -- The ranked candidates are exactly the shapes of the listed tags, other than the current one,
  -- that have the kind, the prefix and the suffix of the current shape, which has a version, are no
  -- pre-release, are within the scope and have a greater version.
  pub ranked_candidates-mem :
      (tags : List Text) (cand : TagShape)
      → Mem cand (ranked_candidates cur tags scope) ↔ ∥ IsCandidate cur tags scope cand ∥₁
  unfolding ranked_candidates
  ranked_candidates-mem tags cand = (
    λ m. ∥∥₁_map ((Perm.mem_iff sorted).0 m) (λ d. collect_sound tags d),
    λ t. (Perm.mem_iff sorted).1 (∥∥₁_map t (λ c. found c)),
  )
    where
      sorted :
          Perm (sort_stable (collect_candidates cur tags scope)) (collect_candidates cur tags scope)
      sorted = sort_stable-perm (collect_candidates cur tags scope)

      found : IsCandidate cur tags scope cand → Memᴰ cand (collect_candidates cur tags scope)
      found c = rw c.shape (
          collect_complete c.listed c.other
            (rw c.shape at ((outranks_iff cur scope cand).1 c.better)))

  -- They stand in rank order: none has a greater version than one in front of it, where a missing
  -- group counts as zero, and of equal versions the one with more groups stands in front.
  pub ranked_candidates-IsRanked : (tags : List Text) → IsRanked (ranked_candidates cur tags scope)
  unfolding ranked_candidates
  ranked_candidates-IsRanked tags = sort_stable-IsRanked (collect_candidates cur tags scope)
