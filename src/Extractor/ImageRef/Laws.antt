-- ===== src/Extractor/ImageRef/Laws.antt =====
-- What a parsed image reference says of its text, and the other way round.
use mathlib.Core.List.{append-nil}
use mathlib.Core.Path.{subst}
use yk_update_checker.Text.Cut.{
  rejoin, cut, cut_last, Joins, cut-none, cut_last-append, cut-append, cut_last-Joins, rejoin-cut,
  cut-front, cut_last-none, cut_last-KeepsCode, KeepsCode,
}
use yk_update_checker.Extractor.ImageRef.{
  ImageRef, parse_image_ref, canonical_repository, with_name, cut_tag, split_image_ref, names_host,
  or_nil, has_placeholder,
}
use yk_update_checker.Prelude.{
  ◌≡◌, ◌++◌, Option, ◌∷◌, [], Bool-cases, false, some, refl, ◌⊎◌, ◌≢◌, inl, sym, inr, ◌||◌, none,
}
use yk_update_checker.Registry.Tag.{has_code}
use yk_update_checker.Text.{Text, is_nil, trim, is_space}

-- `s` is the name, then ":" and the tag if there is one, then "@" and the digest if there is one.
pub record IsSpelt (s : Text) (r : ImageRef) : Type 0 where
  pub front : Text
  pub tagged : ((front ≡ r.name) × (r.tag ≡ [])) ⊎ (front ≡ r.name ++ b':' ∷ r.tag)
  pub pinned : ((s ≡ front) × (r.digest ≡ [])) ⊎ (s ≡ front ++ b'@' ∷ r.digest)
  pub named : r.name ≢ []
  pub no_slash : has_code b'/' r.tag ≡ false
  pub no_at : has_code b'@' front ≡ false
  pub resolved : r.repository ≡ canonical_repository r.name

abbrev IsTagged : Text → Text × Text → Type 0
IsTagged front (name, tag) =
    (((front ≡ name) × (tag ≡ [])) ⊎ (front ≡ name ++ b':' ∷ tag)) × (has_code b'/' tag ≡ false)

cut_tag-IsTagged :
    (front : Text) (o : Option (Text × Text))
    → Joins b':' front o
    → IsTagged front (cut_tag front o)
unfolding cut_tag
cut_tag-IsTagged front none h = (inl (refl, refl), refl)
cut_tag-IsTagged front (some (x, y)) (e, h) = elim (Bool-cases (has_code b'/' y)) [
  | inl k ↦ rw k (inl (refl, refl), refl)
  | inr k ↦ rw k (inr (sym e), k)
]

digest_of_rejoin :
    (s front : Text) (digest : Option Text)
    → rejoin b'@' (front, digest) ≡ s
    → ((s ≡ front) × (or_nil digest ≡ [])) ⊎ (s ≡ front ++ b'@' ∷ or_nil digest)
digest_of_rejoin s front none h = inl (sym h, refl)
digest_of_rejoin s front (some d) h = inr (sym h)

with_name-IsSpelt :
    (s front digest : Text) (p : Text × Text) (r : ImageRef)
    → IsTagged front p
    → ((s ≡ front) × (digest ≡ [])) ⊎ (s ≡ front ++ b'@' ∷ digest)
    → has_code b'@' front ≡ false
    → with_name p digest ≡ some r
    → IsSpelt s r
unfolding with_name
with_name-IsSpelt s front digest ([], tag) r t d k h = absurd (cc h)
with_name-IsSpelt s front digest (c ∷ name, tag) r t d k h = subst (IsSpelt s) (cc h) (record {
  front = front;
  tagged = t.0;
  pinned = d;
  named = λ e. cc e;
  no_slash = t.1;
  no_at = k;
  resolved = refl;
})

-- The parts of a parsed reference, put together again, are the trimmed text; the name is not empty,
-- the tag has no slash, and the repository is the name's canonical one.
pub parse_image_ref-IsSpelt :
    (text : Text) (r : ImageRef) → parse_image_ref text ≡ some r → IsSpelt (trim is_space text) r
unfolding parse_image_ref split_image_ref
parse_image_ref-IsSpelt text r h =
    let s = trim is_space text in
    let (front, digest) = cut b'@' s in
    elim (Bool-cases (is_nil s || has_placeholder s)) [
      | inl e ↦ absurd (cc (rw e at h))
      | inr e ↦
          with_name-IsSpelt s (cut b'@' s).0 (or_nil (cut b'@' s).1) _ r
            (cut_tag-IsTagged (cut b'@' s).0 _ (cut_last-Joins b':' (cut b'@' s).0))
            (digest_of_rejoin s (cut b'@' s).0 (cut b'@' s).1 (rejoin-cut b'@' s))
            (cut-front b'@' s) (rw e at h)
    ]

abbrev tag_part : Text → Text
tag_part [] = []
tag_part (c ∷ tag) = b':' ∷ c ∷ tag

abbrev digest_part : Text → Text
digest_part [] = []
digest_part (c ∷ digest) = b'@' ∷ c ∷ digest

abbrev pub print_image_ref : Text → Text → Text → Text
print_image_ref name tag digest = (name ++ tag_part tag) ++ digest_part digest

-- No colon stands behind the last slash of the name.
pub data NoTagInName (name : Text) : Type 0 where
  plain : has_code b':' name ≡ false → NoTagInName name
  behind :
      (front last : Text)
      → name ≡ front ++ b'/' ∷ last
      → has_code b':' last ≡ false
      → NoTagInName name

-- What a name and a tag may hold, for their text to be read back. A name with no tag behind it has
-- no colon after its last slash.
pub record IsPlain (name tag digest : Text) : Type 0 where
  pub named : is_nil name ≡ false
  pub name_at : has_code b'@' (name ++ tag_part tag) ≡ false
  pub tag_colon : has_code b':' tag ≡ false
  pub tag_slash : has_code b'/' tag ≡ false
  pub untagged : (tag ≢ []) ⊎ NoTagInName name
  pub trimmed : trim is_space (print_image_ref name tag digest) ≡ print_image_ref name tag digest
  pub closed : has_placeholder (print_image_ref name tag digest) ≡ false

cut_tag-kept :
    (name : Text) (o : Option (Text × Text)) → KeepsCode b'/' o → cut_tag name o ≡ (name, [])
unfolding cut_tag
cut_tag-kept name none h = refl
cut_tag-kept name (some (x, y)) h = rw h refl

cut_tag-untagged : (name : Text) → NoTagInName name → cut_tag name (cut_last b':' name) ≡ (name, [])
unfolding cut_tag
cut_tag-untagged name (plain h) = rw (cut_last-none b':' name h) refl
cut_tag-untagged name (behind front last e h) =
    rw e (cut_tag-kept (front ++ b'/' ∷ last) _ (cut_last-KeepsCode b':' b'/' front last refl h))

cut_tag_part :
    (name tag : Text)
    → has_code b':' tag ≡ false
    → has_code b'/' tag ≡ false
    → (tag ≢ []) ⊎ NoTagInName name
    → cut_tag (name ++ tag_part tag) (cut_last b':' (name ++ tag_part tag)) ≡ (name, tag)
unfolding cut_tag
cut_tag_part name [] h k (inl ne) = absurd (ne refl)
cut_tag_part name [] h k (inr u) = rw (append-nil name) (cut_tag-untagged name u)
cut_tag_part name (c ∷ tag) h k u = rw (cut_last-append b':' name (c ∷ tag) h, k) refl

cut-digest_part :
    (front digest : Text)
    → has_code b'@' front ≡ false
    → ((cut b'@' (front ++ digest_part digest)).0 ≡ front)
      × (or_nil (cut b'@' (front ++ digest_part digest)).1 ≡ digest)
cut-digest_part front [] h = rw (append-nil front, cut-none b'@' front h) (refl, refl)
cut-digest_part front (c ∷ digest) h = rw (cut-append b'@' front (c ∷ digest) h) (refl, refl)

append-not-nil : (s t : Text) → is_nil s ≡ false → is_nil (s ++ t) ≡ false
append-not-nil [] t h = absurd (cc h)
append-not-nil (c ∷ s) t h = refl

-- The text of a name, a tag and a digest is read back as these, with the name's canonical
-- repository, where it is trimmed and has no placeholder, the name is not empty, name and tag have no
-- "@", the tag has no colon and no slash, and a name with no tag behind it has no colon behind its
-- last slash.
pub parse_image_ref-print :
    (name tag digest : Text)
    → IsPlain name tag digest
    → parse_image_ref (print_image_ref name tag digest)
      ≡ some (record {
        name = name;
        repository = canonical_repository name;
        tag = tag;
        digest = digest;
      })
unfolding parse_image_ref split_image_ref with_name
parse_image_ref-print name tag digest p =
    let (d₁, d₂) = cut-digest_part (name ++ tag_part tag) digest p.name_at in
    rw
      (
        p.trimmed,
        p.closed,
        append-not-nil (name ++ tag_part tag) (digest_part digest)
            (append-not-nil name (tag_part tag) p.named),
        d₁,
        d₂,
        cut_tag_part name tag p.tag_colon p.tag_slash p.untagged,
        p.named,
      )
      refl

-- A canonical repository is its own.
pub canonical_repository_idem :
    (s : Text) → canonical_repository (canonical_repository s) ≡ canonical_repository s
unfolding canonical_repository
canonical_repository_idem s = elim (Bool-cases (names_host (cut b'/' s).0)) [
  | inl e ↦ rw e (rw e refl)
  | inr e ↦ elim (Bool-cases (has_code b'/' s)) [ inl k ↦ rw (e, k) refl | inr k ↦ rw (e, k) refl ]
]
