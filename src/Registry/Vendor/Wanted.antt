-- ===== src/Registry/Vendor/Wanted.antt =====
-- What `bulkTagDates` knows of a tag: the listing's word, or else the answer to a query of its own
-- if the tag is wanted, each asked for at most once.
use yk_update_checker.Errkind.{or_else}
use yk_update_checker.Registry.Vendor.Dates.{
  info_key, want_one, Memo, TagDates, fetch_tag_info, with_info, want_all, bulk_tag_dates,
  listed_dates, fetch_bulk_tag_dates,
}
use yk_update_checker.Registry.Vendor.Types.{VendorApi, Repository}
use yk_update_checker.Registry.Vendor.{VendorLimits, Servers}
use yk_update_checker.Prelude.{
  none, some, inl, inr, ◌≡◌, Option, List, Option-cases, Bool-cases, ap, Bool, ◌++◌, ◌⊎◌, ◌∙◌, sym,
  ◌∷◌, [], if◌then◌else◌, refl, false, arith, true, ap₂, ◌||◌,
}
use yk_update_checker.Text.{Text, text_eq, text_eq_iff, codes, contains, text_eq_refl}
use yk_update_checker.Registry.Cache.{
  Fetched, value, error, get_or_do, fresh, is_interrupted, fetch_into, qualified,
}
use yk_update_checker.Registry.Cache.Laws.{get_or_do-hit, get_or_do-miss, fetch_into-fresh}
use yk_update_checker.Registry.Verify.{TagInfo, info_of}

-- The information that an answer gives.
abbrev pub told : Fetched TagInfo → Option TagInfo
told (error e) = none
told (value info) = some info

module _ {V : Type 0} (store_name : Text) (f : Text → Fetched V) (key : Text → Text)
    (key_inj : (j k : Text)
      → qualified store_name (key j) ≡ qualified store_name (key k)
      → j ≡ k) where
  abbrev outcome : List (Text × Fetched V) → Text → Fetched V
  outcome store k = (get_or_do store_name store (key k) (f k)).0

  outcome-miss :
      (store : List (Text × Fetched V)) (k : Text)
      → fresh store (qualified store_name (key k)) ≡ none
      → outcome store k ≡ f k
  outcome-miss store k h =
      ap (λ (t : Fetched V × List (Text × Fetched V) × Bool). t.0)
        (get_or_do-miss store_name store (key k) (f k) h)

  outcome-hit :
      (store : List (Text × Fetched V)) (k : Text) (o : Fetched V)
      → fresh store (qualified store_name (key k)) ≡ some o
      → outcome store k ≡ o
  outcome-hit store k o h =
      ap (λ (t : Fetched V × List (Text × Fetched V) × Bool). t.0)
        (get_or_do-hit store_name store (key k) o (f k) h)

  -- What a fetch enters is not there, or is the same fetch's outcome.
  fresh-fetch_into :
      (store : List (Text × Fetched V)) (j k : Text)
      → fresh store (qualified store_name (key k)) ≡ none
      → let entered = fetch_into store (qualified store_name (key j)) (f j) in
        (fresh entered (qualified store_name (key k)) ≡ none)
        ⊎ (fresh entered (qualified store_name (key k)) ≡ some (f k))
  unfolding fetch_into fresh
  fresh-fetch_into store j k h = elim (Bool-cases (is_interrupted (f j))) [
    | inl i ↦ rw i (inl h)
    | inr i ↦
        rw i
          (elim (Bool-cases
            (text_eq (qualified store_name (key j)) (qualified store_name (key k)))) [
              | inl e ↦ rw e (
                  inr (
                    ap (λ l. some (f l))
                      (key_inj j k (
                        (text_eq_iff (qualified store_name (key j))
                            (qualified store_name (key k))).0
                          e))))
              | inr e ↦ rw e (inl h)
            ])
  ]

  -- A look-up leaves the outcomes of all others, and of itself, as they are.
  outcome-again :
      (store : List (Text × Fetched V)) (j k : Text)
      → outcome (get_or_do store_name store (key j) (f j)).1 k ≡ outcome store k
  outcome-again store j k = elim (Option-cases (fresh store (qualified store_name (key j)))) [
    | inr (o, e) ↦
        ap (λ (t : Fetched V × List (Text × Fetched V) × Bool). outcome t.1 k)
          (get_or_do-hit store_name store (key j) o (f j) e)
    | inl e ↦
        ap (λ (t : Fetched V × List (Text × Fetched V) × Bool). outcome t.1 k)
          (get_or_do-miss store_name store (key j) (f j) e)
        ∙ outcome-entered store j k e
  ]
    where
      outcome-entered :
          (store : List (Text × Fetched V)) (j k : Text)
          → fresh store (qualified store_name (key j)) ≡ none
          → outcome (fetch_into store (qualified store_name (key j)) (f j)) k ≡ outcome store k
      outcome-entered store j k e =
          elim (Option-cases (fresh store (qualified store_name (key k)))) [
            | inr (p, h) ↦
                outcome-hit _ k p (
                  fetch_into-fresh store_name store (qualified store_name (key j))
                    (qualified store_name (key k)) (f j) p e h)
                ∙ sym (outcome-hit store k p h)
            | inl h ↦ elim (fresh-fetch_into store j k h) [
              | inl n ↦ outcome-miss _ k n ∙ sym (outcome-miss store k h)
              | inr n ↦ outcome-hit _ k (f k) n ∙ sym (outcome-miss store k h)
            ]
          ]

text_eq-sym : (s t : Text) → text_eq s t ≡ false → text_eq t s ≡ false
text_eq-sym s t h = ground (arith, text_eq_iff s t, text_eq_iff t s)

append-inj : (s t u : Text) → s ++ t ≡ s ++ u → t ≡ u
append-inj [] t u e = e
append-inj (c ∷ s) t u e = append-inj s t u (ap tail e)
  where
    tail : Text → Text
    tail [] = []
    tail (c ∷ s) = s

info_key-inj :
    (repository j k : Text)
    → qualified (codes "tag-info") (info_key repository j)
      ≡ qualified (codes "tag-info") (info_key repository k)
    → j ≡ k
info_key-inj repository j k e = append-inj (b'|' ∷ []) j k (
    append-inj repository (b'|' ∷ j) (b'|' ∷ k) (
      append-inj (codes "tag-info" ++ codes "|") (repository ++ b'|' ∷ j) (repository ++ b'|' ∷ k)
        e))

or_else-none : (o : Option TagInfo) → o ≡ or_else o none
or_else-none none = refl
or_else-none (some i) = refl

-- Two sources with one answer are one source.
merge :
    (x : Option TagInfo) (q c : Bool) (a b : Option TagInfo)
    → ((q ≡ true) → b ≡ a)
    → or_else (or_else x (if q then b else none)) (if c then a else none)
      ≡ or_else x (if q || c then a else none)
merge (some i) q c a b h = refl
merge none false c a b h = refl
merge none true true a b h = rw (h refl) (twice a)
  where
    twice : (a : Option TagInfo) → or_else a a ≡ a
    twice none = refl
    twice (some i) = refl
merge none true false a b h = rw (h refl) (sym (or_else-none a))

with_info-info_of :
    (tag t : Text) (o : Fetched TagInfo) (out : TagDates)
    → info_of out.infos tag ≡ none
    → info_of (with_info tag o out).infos t
      ≡ or_else (info_of out.infos t) (if text_eq t tag then told o else none)
unfolding info_of
with_info-info_of tag t (error e) out h = elim (Bool-cases (text_eq t tag)) [
  | inl q ↦ rw q (or_else-none (info_of out.infos t))
  | inr q ↦ rw q (or_else-none (info_of out.infos t))
]
with_info-info_of tag t (value i) out h = elim (Bool-cases (text_eq t tag)) [
  | inl q ↦ let same : t ≡ tag = (text_eq_iff t tag).0 q in rw (same, text_eq_refl tag, h) refl
  | inr q ↦ rw (q, text_eq-sym t tag q) (or_else-none (info_of out.infos t))
]

module _ (limits : VendorLimits) (servers : Servers) (vendors : List (Text × VendorApi))
    (parse : Text → Fetched Repository) (repository : Text) where
  -- The answer to the query for one tag, from the store if it is there.
  abbrev pub asked : Memo → Text → Option TagInfo
  asked memo tag =
      told
        (get_or_do (codes "tag-info") memo.img_infos (info_key repository tag)
          (fetch_tag_info limits servers vendors parse repository tag)).0

  want_one-asked :
      (tag t : Text) (o : Option TagInfo) (out : TagDates) (memo : Memo)
      → asked (want_one limits servers vendors parse repository tag o (out, memo)).1 t
        ≡ asked memo t
  unfolding want_one
  want_one-asked tag t (some d) out memo = refl
  want_one-asked tag t none out memo = ap told (
      outcome-again (codes "tag-info") (fetch_tag_info limits servers vendors parse repository)
        (info_key repository) (info_key-inj repository) memo.img_infos tag t)

  want_one-info_of :
      (tag t : Text) (o : Option TagInfo) (out : TagDates) (memo : Memo)
      → info_of out.infos tag ≡ o
      → info_of (want_one limits servers vendors parse repository tag o (out, memo)).0.infos t
        ≡ or_else (info_of out.infos t) (if text_eq t tag then asked memo tag else none)
  unfolding want_one
  want_one-info_of tag t none out memo h = with_info-info_of tag t _ out h
  want_one-info_of tag t (some d) out memo h = elim (Bool-cases (text_eq t tag)) [
    | inl q ↦ let same : t ≡ tag = (text_eq_iff t tag).0 q in rw (same, h) refl
    | inr q ↦ rw q (or_else-none (info_of out.infos t))
  ]

  want_all-info_of :
      (want : List Text) (t : Text) (out : TagDates) (memo : Memo)
      → info_of (want_all limits servers vendors parse repository want (out, memo)).0.infos t
        ≡ or_else (info_of out.infos t) (if contains want t then asked memo t else none)
  unfolding want_all contains
  want_all-info_of [] t out memo = or_else-none (info_of out.infos t)
  want_all-info_of (tag ∷ want) t out memo =
      let next =
        want_one limits servers vendors parse repository tag (info_of out.infos tag) (out, memo) in
      want_all-info_of want t next.0 next.1
      ∙ ap₂ (λ x y. or_else x (if contains want t then y else none))
          (want_one-info_of tag t (info_of out.infos tag) out memo refl)
          (want_one-asked tag t (info_of out.infos tag) out memo)
      ∙ merge (info_of out.infos t) (text_eq t tag) (contains want t) (asked memo t)
          (asked memo tag) (λ q. ap (asked memo) (sym ((text_eq_iff t tag).0 q)))

  -- The listing's word, or else the answer of a wanted tag's own query.
  pub bulk_tag_dates-info_of :
      (want : List Text) (memo : Memo) (tag : Text)
      → info_of (bulk_tag_dates limits servers vendors parse repository want memo).0.infos tag
        ≡ or_else
            (info_of
              (listed_dates
                (get_or_do
                  (codes "tag-dates")
                  memo.img_dates
                  repository
                  (fetch_bulk_tag_dates limits servers vendors parse repository)).0).infos
              tag)
            (if contains want tag then asked memo tag else none)
  unfolding bulk_tag_dates
  bulk_tag_dates-info_of want memo tag = want_all-info_of want tag _ _
