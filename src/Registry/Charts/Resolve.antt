-- ===== src/Registry/Charts/Resolve.antt =====
-- internal/registry/charts.go: the version that a manifest's constraint resolves to.
use yk_update_checker.Prelude.{
  Bool, ◌⊎◌, List, ◌&&◌, Option, some, Memᴰ, ◌≡◌, true, false, none, Bool-cases, arith, inl,
  Option-cases, inr, refl, ◌∷◌, [],
}
use yk_update_checker.Registry.Charts.{
  Version, SemverLibrary, better, best_match, resolve_current, resolve_range, is_stable, found_best,
}
use yk_update_checker.Errkind.{invalid_version, kind_of, wrap, as_known}
use yk_update_checker.Registry.Charts.Eligible.{SemverLaws}
use yk_update_checker.Registry.Cache.{Fetched, value, error}
use yk_update_checker.Text.{Text}

and_assoc : (a b c : Bool) → (a && b && c) ≡ ((a && b) && c)
and_assoc a b c = ground arith

module _ (lib : SemverLibrary) (check : Version → Bool) where
  -- A stable version that satisfies the constraint.
  abbrev pub matches : Version → Bool
  matches v = is_stable v && check v

  -- The best version of those seen: one of them, and none is greater.
  abbrev IsBest : (Version → Type 0) → Option Version → Type 0
  IsBest Seen none = (v : Version) → ¬ Seen v
  IsBest Seen (some b) = Seen b × ((v : Version) → Seen v → lib.greater_than v b ≡ false)

  -- A version that the texts of the list parse to and that matches.
  abbrev pub Matching : List Text → Version → Type 0
  Matching tags v = (t : Text) × Memᴰ t tags × (lib.parse t ≡ some v) × (matches v ≡ true)

  abbrev Adds : (Version → Type 0) → Text → Version → Type 0
  Adds Seen t v = Seen v ⊎ ((lib.parse t ≡ some v) × (matches v ≡ true))

module _ (lib : SemverLibrary) (laws : SemverLaws lib) (check : Version → Bool) where
  IsBest-same :
      (Seen More : Version → Type 0) (best : Option Version)
      → ((v : Version) → Seen v → More v)
      → ((v : Version) → More v → Seen v)
      → IsBest lib check Seen best
      → IsBest lib check More best
  IsBest-same Seen More none up down h = λ v m. h v (down v m)
  IsBest-same Seen More (some b) up down (s, h) = (up b s, λ v m. h v (down v m))

  -- The version read last, where it matches.
  IsBest-greater :
      (Seen : Version → Type 0) (b w : Version) (t : Text)
      → IsBest lib check Seen (some b)
      → lib.parse t ≡ some w
      → matches lib check w ≡ true
      → lib.greater_than w b ≡ true
      → IsBest lib check (Adds lib check Seen t) (some w)
  IsBest-greater Seen b w t (s, h) e m g = (inr (e, m), not_greater)
    where
      not_greater : (v : Version) → Adds lib check Seen t v → lib.greater_than v w ≡ false
      not_greater v (inr (p, _)) = let q : v ≡ w = cc (p, e) in rw q (laws.greater-irrefl w)
      not_greater v (inl k) = elim (Bool-cases (lib.greater_than v w)) [
        | inr n ↦ n
        | inl y ↦ absurd (cc (laws.greater-trans v w b y g, h v k))
      ]

  IsBest-first :
      (Seen : Version → Type 0) (w : Version) (t : Text)
      → IsBest lib check Seen none
      → lib.parse t ≡ some w
      → matches lib check w ≡ true
      → IsBest lib check (Adds lib check Seen t) (some w)
  IsBest-first Seen w t h e m = (inr (e, m), not_greater)
    where
      not_greater : (v : Version) → Adds lib check Seen t v → lib.greater_than v w ≡ false
      not_greater v (inr (p, _)) = let q : v ≡ w = cc (p, e) in rw q (laws.greater-irrefl w)
      not_greater v (inl k) = absurd (h v k)

  IsBest-kept :
      (Seen : Version → Type 0) (b w : Version) (t : Text)
      → IsBest lib check Seen (some b)
      → lib.parse t ≡ some w
      → lib.greater_than w b ≡ false
      → IsBest lib check (Adds lib check Seen t) (some b)
  IsBest-kept Seen b w t (s, h) e g = (inl s, not_greater)
    where
      not_greater : (v : Version) → Adds lib check Seen t v → lib.greater_than v b ≡ false
      not_greater v (inl k) = h v k
      not_greater v (inr (p, _)) = let q : v ≡ w = cc (p, e) in rw q g

  IsBest-skipped :
      (Seen : Version → Type 0) (best : Option Version) (t : Text)
      → ((v : Version) → lib.parse t ≡ some v → matches lib check v ≡ false)
      → IsBest lib check Seen best
      → IsBest lib check (Adds lib check Seen t) best
  IsBest-skipped Seen best t n = IsBest-same Seen (Adds lib check Seen t) best (λ v s. inl s) drop
    where
      drop : (v : Version) → Adds lib check Seen t v → Seen v
      drop v (inl s) = s
      drop v (inr (p, m)) = absurd (cc (n v p, m))

  matching-IsBest :
      (Seen : Version → Type 0) (best : Option Version) (w : Version) (t : Text)
      → IsBest lib check Seen best
      → lib.parse t ≡ some w
      → matches lib check w ≡ true
      → IsBest lib check (Adds lib check Seen t) (better lib check best (some w))
  unfolding better
  matching-IsBest Seen none w t h e m = rw m (IsBest-first Seen w t h e m)
  matching-IsBest Seen (some b) w t h e m = elim (Bool-cases (lib.greater_than w b)) [
    | inl g ↦
        rw (and_assoc (is_stable w) (check w) (lib.greater_than w b), m, g)
          (IsBest-greater Seen b w t h e m g)
    | inr g ↦
        rw (and_assoc (is_stable w) (check w) (lib.greater_than w b), m, g)
          (IsBest-kept Seen b w t h e g)
  ]

  better-skipped :
      (best : Option Version) (w : Version)
      → matches lib check w ≡ false
      → better lib check best (some w) ≡ best
  unfolding better
  better-skipped none w m = rw m refl
  better-skipped (some b) w m =
      rw (and_assoc (is_stable w) (check w) (lib.greater_than w b), m) refl

  better-IsBest :
      (Seen : Version → Type 0) (best : Option Version) (t : Text)
      → IsBest lib check Seen best
      → IsBest lib check (Adds lib check Seen t) (better lib check best (lib.parse t))
  unfolding better
  better-IsBest Seen best t h = elim (Option-cases (lib.parse t)) [
    | inl e ↦ rw e (IsBest-skipped Seen best t (λ v p. absurd (cc (e, p))) h)
    | inr (w, e) ↦ elim (Bool-cases (matches lib check w)) [
      | inl m ↦ rw e (matching-IsBest Seen best w t h e m)
      | inr m ↦
          rw (e, better-skipped best w m)
            (IsBest-skipped Seen best t (λ v p. let q : v ≡ w = cc (e, p) in rw q m) h)
    ]
  ]

  best_match-IsBest :
      (Seen : Version → Type 0) (best : Option Version) (tags : List Text)
      → IsBest lib check Seen best
      → IsBest lib check (λ v. Seen v ⊎ Matching lib check tags v) (best_match lib check best tags)
  unfolding best_match
  best_match-IsBest Seen best [] h =
      IsBest-same Seen (λ v. Seen v ⊎ Matching lib check [] v) best (λ v s. inl s) none_in h
    where
      none_in : (v : Version) → Seen v ⊎ Matching lib check [] v → Seen v
      none_in v (inl s) = s
      none_in v (inr (t, m, _, _)) = elim m [ ]
  best_match-IsBest Seen best (t ∷ tags) h =
      IsBest-same (λ v. Adds lib check Seen t v ⊎ Matching lib check tags v)
        (λ v. Seen v ⊎ Matching lib check (t ∷ tags) v)
        (best_match lib check (better lib check best (lib.parse t)) tags) up down
        (best_match-IsBest (Adds lib check Seen t) (better lib check best (lib.parse t)) tags
          (better-IsBest Seen best t h))
    where
      up :
          (v : Version)
          → Adds lib check Seen t v ⊎ Matching lib check tags v
          → Seen v ⊎ Matching lib check (t ∷ tags) v
      up v (inl (inl s)) = inl s
      up v (inl (inr (p, m))) = inr (t, Memᴰ.head refl, p, m)
      up v (inr (u, k, p, m)) = inr (u, Memᴰ.tail k, p, m)

      down :
          (v : Version)
          → Seen v ⊎ Matching lib check (t ∷ tags) v
          → Adds lib check Seen t v ⊎ Matching lib check tags v
      down v (inl s) = inl (inl s)
      down v (inr (u, Memᴰ.head q, p, m)) = inl (inr (rw q at p, m))
      down v (inr (u, Memᴰ.tail k, p, m)) = inr (u, k, p, m)

  -- What a constraint resolves to: a matching version that no other is greater than, or an error of
  -- its kind where none matches.
  abbrev pub IsResolved : List Text → Fetched Version → Type 0
  IsResolved tags (value v) =
      Matching lib check tags v
      × ((w : Version) → Matching lib check tags w → lib.greater_than w v ≡ false)
  IsResolved tags (error e) =
      ((w : Version) → ¬ Matching lib check tags w) × (kind_of e ≡ invalid_version)

  found_best-IsResolved :
      (quoted : Text → Text) (current : Text) (tags : List Text) (best : Option Version)
      → IsBest lib check (Matching lib check tags) best
      → IsResolved tags (found_best lib quoted current best)
  unfolding wrap kind_of as_known
  found_best-IsResolved quoted current tags none h = (h, refl)
  found_best-IsResolved quoted current tags (some v) h = h

  -- A declared version that is a constraint resolves, among the tags of the registry, to the stable
  -- version that satisfies it and that no other such version is greater than; where there is none,
  -- it fails with the kind of an invalid version.
  pub resolve_current-IsResolved :
      (quoted : Text → Text) (current : Text) (tags : List Text)
      → lib.parse current ≡ none
      → lib.constraint current ≡ value check
      → IsResolved tags (resolve_current lib quoted current tags)
  unfolding resolve_current resolve_range
  resolve_current-IsResolved quoted current tags e c =
      rw (e, resolve_current, c, resolve_range)
        (found_best-IsResolved quoted current tags (best_match lib check none tags) (
          IsBest-same (λ v. ⊥ ⊎ Matching lib check tags v) (Matching lib check tags)
            (best_match lib check none tags) matched (λ v m. inr m)
            (best_match-IsBest (λ v. ⊥) none tags (λ v s. s))))
    where
      matched : (v : Version) → ⊥ ⊎ Matching lib check tags v → Matching lib check tags v
      matched v (inl s) = absurd s
      matched v (inr m) = m
