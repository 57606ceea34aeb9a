-- ===== src/Tests/ChartTests.antt =====
-- Versions of charts: internal/registry/charts.go, over a library whose versions are one digit.
use mathlib.Core.List.Memᴰ
use yk_update_checker.Prelude.{
  some, none, inl, inr, refl, false, List, ◌≡◌, Bool, ℕ, Option, Memᴰ, ltb, ◌∷◌, ◌-◌, leb, All,
  Bool-cases, arith, ◌↔◌, [], if◌then◌else◌, ◌⊎◌, ap, sym, ◌++◌, ◌≢◌, All-mem,
}
use yk_update_checker.Registry.Cache.{value}
use yk_update_checker.Registry.Charts.{
  SemverLibrary, Version, latest_from_tags, eligible_versions, is_eligible, resolve_current,
}
use yk_update_checker.Registry.Charts.Eligible.{SemverLaws, IsLatest, latest_from_tags-IsLatest}
use yk_update_checker.Registry.Charts.Resolve.{IsResolved, resolve_current-IsResolved}
use yk_update_checker.Registry.Scope.{Scope}
use yk_update_checker.Text.{Text, codes, is_digit}

-- A version of one digit, as a minor version.
abbrev digit : ℕ → Version
digit c = record { major = 1; minor = c - b'0'; patch = 0; prerelease = []; original = c ∷ [] }

read : Text → Option Version
read (c ∷ []) = if is_digit c then some (digit c) else none
read _ = none

abbrev greater : Version → Version → Bool
greater v w = ltb w.minor v.minor

insert_version : Version → List Version → List Version
insert_version v [] = v ∷ []
insert_version v (w ∷ vs) =
    let rest = insert_version v vs in if greater v w then w ∷ rest else v ∷ w ∷ vs

sort_versions : List Version → List Version
unfolding insert_version
sort_versions [] = []
sort_versions (v ∷ vs) = insert_version v (sort_versions vs)

-- The constraint of at most 7.
abbrev up_to_seven : Version → Bool
up_to_seven v = leb v.minor 7

abbrev digits : SemverLibrary
digits = record {
  parse = read;
  greater_than = greater;
  sorted = sort_versions;
  constraint = λ t. value up_to_seven;
}

read-original : (t : Text) (v : Version) → read t ≡ some v → v.original ≡ t
unfolding read
read-original (c ∷ []) v h = elim (Bool-cases (is_digit c)) [
  | inl e ↦ let q : digit c ≡ v = cc (rw e at h) in ap (λ (x : Version). x.original) (sym q)
  | inr e ↦ absurd (cc (rw e at h))
]
read-original [] v h = absurd (cc h)
read-original (c ∷ d ∷ s) v h = absurd (cc h)

-- No version is greater than the one behind it, at any distance.
abbrev Above : Version → List Version → Type 0
Above v = All (λ w. greater v w ≡ false)

abbrev Ascending : List Version → Type 0
Ascending [] = Unit
Ascending (v ∷ vs) = Above v vs × Ascending vs

insert-Above :
    (u v : Version) (vs : List Version)
    → greater u v ≡ false
    → Above u vs
    → Above u (insert_version v vs)
unfolding insert_version
insert-Above u v [] h k = (h, tt)
insert-Above u v (w ∷ vs) h (k, l) = elim (Bool-cases (greater v w)) [
  | inl e ↦ rw e (k, insert-Above u v vs h l)
  | inr e ↦ rw e (h, (k, l))
]

Above-trans : (u v : Version) (vs : List Version) → greater u v ≡ false → Above v vs → Above u vs
Above-trans u v [] h k = tt
Above-trans u v (w ∷ vs) h (k, l) = (ground (arith, h, k), Above-trans u v vs h l)

insert-Ascending :
    (v : Version) (vs : List Version) → Ascending vs → Ascending (insert_version v vs)
unfolding insert_version
insert-Ascending v [] h = (tt, tt)
insert-Ascending v (w ∷ vs) (k, h) = elim (Bool-cases (greater v w)) [
  | inl e ↦ rw e (insert-Above w v vs (ground (arith, e)) k, insert-Ascending v vs h)
  | inr e ↦ rw e ((e, Above-trans v w vs e k), (k, h))
]

sort-Ascending : (vs : List Version) → Ascending (sort_versions vs)
unfolding sort_versions
sort-Ascending [] = tt
sort-Ascending (v ∷ vs) = insert-Ascending v (sort_versions vs) (sort-Ascending vs)

module _ (u v w : Version) (vs : List Version)
    (same : Memᴰ u (insert_version v vs) ↔ Memᴰ u (v ∷ vs)) where
  swapped : (u ≡ w) ⊎ Memᴰ u (insert_version v vs) → Memᴰ u (v ∷ w ∷ vs)
  swapped (inl e) = Memᴰ.tail (Memᴰ.head e)
  swapped (inr m) = elim (Memᴰ.cases_cons (same.0 m)) [
    | inl e ↦ Memᴰ.head e
    | inr k ↦ Memᴰ.tail (Memᴰ.tail k)
  ]

  inserted : (u ≡ v) ⊎ Memᴰ u (w ∷ vs) → Memᴰ u (w ∷ insert_version v vs)
  inserted (inl e) = Memᴰ.tail (same.1 (Memᴰ.head e))
  inserted (inr m) = elim (Memᴰ.cases_cons m) [
    | inl e ↦ Memᴰ.head e
    | inr k ↦ Memᴰ.tail (same.1 (Memᴰ.tail k))
  ]

mem-insert_version :
    (u v : Version) (vs : List Version) → Memᴰ u (insert_version v vs) ↔ Memᴰ u (v ∷ vs)
unfolding insert_version
mem-insert_version u v [] = (λ m. m, λ m. m)
mem-insert_version u v (w ∷ vs) =
    let same = mem-insert_version u v vs in
    elim (Bool-cases (greater v w)) [
      | inr e ↦ rw e (λ m. m, λ m. m)
      | inl e ↦ rw e (
        λ m. swapped u v w vs same (Memᴰ.cases_cons m),
        λ m. inserted u v w vs same (Memᴰ.cases_cons m),
      )
    ]

mem-sort_versions : (u : Version) (vs : List Version) → Memᴰ u (sort_versions vs) ↔ Memᴰ u vs
unfolding sort_versions
mem-sort_versions u [] = (λ m. m, λ m. m)
mem-sort_versions u (v ∷ vs) =
    let one = mem-insert_version u v (sort_versions vs) in
    let rest = mem-sort_versions u vs in
    (
      λ m. elim (Memᴰ.cases_cons (one.0 m)) [ inl e ↦ Memᴰ.head e | inr k ↦ Memᴰ.tail (rest.0 k) ],
      λ m. elim (Memᴰ.cases_cons m) [
        | inl e ↦ one.1 (Memᴰ.head e)
        | inr k ↦ one.1 (Memᴰ.tail (rest.1 k))
      ],
    )

Ascending-last :
    (front : List Version) (v : Version)
    → Ascending (front ++ v ∷ [])
    → All (λ w. greater w v ≡ false) front
Ascending-last [] v h = tt
Ascending-last (w ∷ front) v (k, h) = (
  All-mem (λ x. greater w x ≡ false) (Memᴰ.append_right front (Memᴰ.head refl)) k,
  Ascending-last front v h,
)

sort_versions-last :
    (vs front : List Version) (v : Version)
    → sort_versions vs ≡ front ++ v ∷ []
    → All (λ w. greater w v ≡ false) front
sort_versions-last vs front v e = Ascending-last front v (rw e at (sort-Ascending vs))

digits_laws : SemverLaws digits
unfolding read
digits_laws = record {
  parse-original = read-original;
  parse-nil = refl;
  greater-irrefl = λ v. ground arith;
  greater-trans = λ u v w h k. ground (arith, h, k);
  mem-sorted = mem-sort_versions;
  sorted-last = sort_versions-last;
}

abbrev tags : List Text
tags = codes "3" ∷ codes "x" ∷ codes "9" ∷ codes "7" ∷ []

latest_nine : latest_from_tags digits (digit b'4') tags Scope.minor ≡ codes "9"
unfolding latest_from_tags eligible_versions is_eligible read sort_versions insert_version
latest_nine = refl

latest_from_tags-IsLatest_example :
    IsLatest digits
      (digit b'4')
      Scope.minor
      tags
      (latest_from_tags digits (digit b'4') tags Scope.minor)
latest_from_tags-IsLatest_example =
    latest_from_tags-IsLatest digits digits_laws (digit b'4') Scope.minor tags

latest_named : latest_from_tags digits (digit b'4') tags Scope.minor ≢ []
latest_named = λ e. cc (latest_nine, e)

read_four : read (codes "4") ≡ some (digit b'4')
unfolding read
read_four = refl

abbrev quoted : Text → Text
quoted t = codes "'" ++ t ++ codes "'"

read_range : read (codes "<=7") ≡ none
unfolding read
read_range = refl

resolve_current-IsResolved_example :
    IsResolved digits digits_laws up_to_seven tags
      (resolve_current digits quoted (codes "<=7") tags)
resolve_current-IsResolved_example =
    resolve_current-IsResolved digits digits_laws up_to_seven quoted (codes "<=7") tags read_range
      refl
