-- ===== src/Extractor/Flux/Sources.antt =====
-- internal/extractor/fluxcd.go: what the store of sources holds for a key after the pre-pass.
use yk_update_checker.Prelude.{
  Bool, List, ◌≡◌, true, ◌∷◌, false, All, Bool-cases, ◌++◌, ◌∙◌, inl, some, [], refl, inr, ◌≢◌,
}
use yk_update_checker.Extractor.Flux.{
  FluxCd, RepoEntry, stored, entry_key, prepare_source, prepare_sources, helm_entry, oci_entry,
  oci_version,
}
use yk_update_checker.Extractor.Manifests.{FluxSource}
use yk_update_checker.Text.{Text, codes, text_eq, text_eq_iff}

abbrev pub is_kind : Text → FluxSource → Bool
is_kind kind doc = text_eq doc.kind kind

-- A document of this kind, namespace and name.
abbrev pub Declares : Text → Text → FluxSource → Type 0
Declares kind key doc = (is_kind kind doc ≡ true) × (entry_key doc ≡ key)

stored-head :
    (k key : Text) (entry : RepoEntry) (store : List (Text × RepoEntry))
    → k ≡ key
    → stored ((k, entry) ∷ store) key ≡ some entry
unfolding stored
stored-head k key entry store e = rw ((text_eq_iff k key).1 e) refl

stored-tail :
    (k key : Text) (entry : RepoEntry) (store : List (Text × RepoEntry))
    → k ≢ key
    → stored ((k, entry) ∷ store) key ≡ stored store key
unfolding stored
stored-tail k key entry store n = elim (Bool-cases (text_eq k key)) [
  | inl e ↦ absurd (n ((text_eq_iff k key).0 e))
  | inr e ↦ rw e refl
]

-- One store of the two, the documents it keeps and the entry it makes of each.
module _ (store : FluxCd → List (Text × RepoEntry)) (kind : Text) (entry : FluxSource → RepoEntry)
    (kept : (f : FluxCd) (doc : FluxSource)
      → is_kind kind doc ≡ true
      → store (prepare_source f doc) ≡ (entry_key doc, entry doc) ∷ store f)
    (skipped : (f : FluxCd) (doc : FluxSource)
      → is_kind kind doc ≡ false
      → store (prepare_source f doc) ≡ store f) where
  stored-other :
      (f : FluxCd) (key : Text) (doc : FluxSource)
      → ¬ Declares kind key doc
      → stored (store (prepare_source f doc)) key ≡ stored (store f) key
  stored-other f key doc n = elim (Bool-cases (is_kind kind doc)) [
    | inl e ↦
        rw (kept f doc e) (stored-tail (entry_key doc) key (entry doc) (store f) (λ q. n (e, q)))
    | inr e ↦ rw (skipped f doc e) refl
  ]

  prepare_sources-other :
      (f : FluxCd) (key : Text) (docs : List FluxSource)
      → All (λ d. ¬ Declares kind key d) docs
      → stored (store (prepare_sources f docs)) key ≡ stored (store f) key
  unfolding prepare_sources
  prepare_sources-other f key [] h = refl
  prepare_sources-other f key (doc ∷ docs) (n, h) =
      prepare_sources-other (prepare_source f doc) key docs h ∙ stored-other f key doc n

  -- The last document of the kind and key counts.
  prepare_sources-last :
      (f : FluxCd) (key : Text) (front : List FluxSource) (doc : FluxSource)
      (back : List FluxSource)
      → Declares kind key doc
      → All (λ d. ¬ Declares kind key d) back
      → stored (store (prepare_sources f (front ++ doc ∷ back))) key ≡ some (entry doc)
  unfolding prepare_sources
  prepare_sources-last f key (d ∷ front) doc back h k =
      prepare_sources-last (prepare_source f d) key front doc back h k
  prepare_sources-last f key [] doc back (e, q) k =
      prepare_sources-other (prepare_source f doc) key back k
      ∙ rw (kept f doc e) (stored-head (entry_key doc) key (entry doc) (store f) q)

abbrev pub helm_kind : Text
helm_kind = codes "HelmRepository"

abbrev pub oci_kind : Text
oci_kind = codes "OCIRepository"

-- Preparing one document adds it to the store of its kind and leaves the other.
helm-kept :
    (f : FluxCd) (doc : FluxSource)
    → is_kind helm_kind doc ≡ true
    → (prepare_source f doc).helm ≡ (entry_key doc, helm_entry doc.spec.url) ∷ f.helm
unfolding prepare_source
helm-kept f doc e = rw e refl

helm-skipped :
    (f : FluxCd) (doc : FluxSource)
    → is_kind helm_kind doc ≡ false
    → (prepare_source f doc).helm ≡ f.helm
unfolding prepare_source
helm-skipped f doc e = elim (Bool-cases (is_kind oci_kind doc)) [
  | inl o ↦ rw (e, o) refl
  | inr o ↦ rw (e, o) refl
]

kinds-distinct : text_eq oci_kind helm_kind ≡ false
unfolding text_eq
kinds-distinct = refl

is_kind-distinct : (doc : FluxSource) → is_kind oci_kind doc ≡ true → is_kind helm_kind doc ≡ false
is_kind-distinct doc e = rw ((text_eq_iff doc.kind oci_kind).0 e) kinds-distinct

abbrev pub oci_entry_of : FluxSource → RepoEntry
oci_entry_of doc = oci_entry doc.spec.url (oci_version doc.spec.ref)

oci-kept :
    (f : FluxCd) (doc : FluxSource)
    → is_kind oci_kind doc ≡ true
    → (prepare_source f doc).oci ≡ (entry_key doc, oci_entry_of doc) ∷ f.oci
unfolding prepare_source
oci-kept f doc e = rw (is_kind-distinct doc e, e) refl

oci-skipped :
    (f : FluxCd) (doc : FluxSource)
    → is_kind oci_kind doc ≡ false
    → (prepare_source f doc).oci ≡ f.oci
unfolding prepare_source
oci-skipped f doc e = elim (Bool-cases (is_kind helm_kind doc)) [
  | inl h ↦ rw h refl
  | inr h ↦ rw (h, e) refl
]

-- The last `HelmRepository` of a namespace and name among the prepared documents is the one stored.
pub helm-last :
    (f : FluxCd) (key : Text) (front : List FluxSource) (doc : FluxSource) (back : List FluxSource)
    → Declares helm_kind key doc
    → All (λ d. ¬ Declares helm_kind key d) back
    → stored (prepare_sources f (front ++ doc ∷ back)).helm key ≡ some (helm_entry doc.spec.url)
helm-last f key front doc back =
    prepare_sources-last (λ s. s.helm) helm_kind (λ d. helm_entry d.spec.url) helm-kept helm-skipped
      f key front doc back

pub oci-last :
    (f : FluxCd) (key : Text) (front : List FluxSource) (doc : FluxSource) (back : List FluxSource)
    → Declares oci_kind key doc
    → All (λ d. ¬ Declares oci_kind key d) back
    → stored (prepare_sources f (front ++ doc ∷ back)).oci key ≡ some (oci_entry_of doc)
oci-last f key front doc back =
    prepare_sources-last (λ s. s.oci) oci_kind oci_entry_of oci-kept oci-skipped f key front doc
      back

pub helm-other :
    (f : FluxCd) (key : Text) (docs : List FluxSource)
    → All (λ d. ¬ Declares helm_kind key d) docs
    → stored (prepare_sources f docs).helm key ≡ stored f.helm key
helm-other f key docs =
    prepare_sources-other (λ s. s.helm) helm_kind (λ d. helm_entry d.spec.url) helm-kept
      helm-skipped f key docs
