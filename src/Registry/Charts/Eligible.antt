-- ===== src/Registry/Charts/Eligible.antt =====
-- internal/registry/charts.go: the version that `latestFromTags` picks.
use yk_update_checker.Prelude.{
  List, ◌≡◌, some, none, Memᴰ, ◌∷◌, ◌++◌, Option-cases, [], true, ap, Option, refl, inl, false, ◌↔◌,
  inr, Bool-cases, All, ◌⊎◌, ◌≢◌, All-mem, sym, ◌∙◌, &&_iff, arith, ◌&&◌,
}
use yk_update_checker.Registry.Scope.{Scope}
use mathlib.Core.List.Memᴰ
use yk_update_checker.Registry.Charts.{
  Version, SemverLibrary, is_eligible, eligible_versions, latest_from_tags, original_of, last,
  add_candidate, in_scope, is_stable,
}
use yk_update_checker.Text.{Text, is_nil}

-- What the code relies on of the library of semantic versions: a version keeps the text it was read
-- from, and the empty text is no version; the order is strict; sorting keeps the versions and puts
-- none behind a greater one.
pub record SemverLaws (lib : SemverLibrary) : Type 0 where
  pub parse-original : (t : Text) (v : Version) → lib.parse t ≡ some v → v.original ≡ t
  pub parse-nil : lib.parse [] ≡ none
  pub greater-irrefl : (v : Version) → lib.greater_than v v ≡ false
  pub greater-trans :
      (u v w : Version)
      → lib.greater_than u v ≡ true
      → lib.greater_than v w ≡ true
      → lib.greater_than u w ≡ true
  pub mem-sorted : (v : Version) (vs : List Version) → Memᴰ v (lib.sorted vs) ↔ Memᴰ v vs
  pub sorted-last :
      (vs front : List Version) (v : Version)
      → lib.sorted vs ≡ front ++ v ∷ []
      → All (λ w. lib.greater_than w v ≡ false) front

last-front :
    (vs : List Version) (v : Version)
    → last vs ≡ some v
    → (front : List Version) × (vs ≡ front ++ v ∷ [])
last-front [] v e = absurd (cc e)
last-front (w ∷ []) v e = let q : w ≡ v = cc (e) in ([], ap (λ (x : Version). x ∷ []) q)
last-front (w ∷ u ∷ vs) v e =
    let (front, q) = last-front (u ∷ vs) v e in (w ∷ front, ap (λ l. w ∷ l) q)

last-none : (vs : List Version) → last vs ≡ none → vs ≡ []
last-none [] e = refl
last-none (w ∷ []) e = absurd (cc e)
last-none (w ∷ u ∷ vs) e = absurd (cons_last u vs e)
  where
    cons_last : (x : Version) (xs : List Version) → last (x ∷ xs) ≡ none → ⊥
    cons_last x [] q = cc q
    cons_last x (z ∷ xs) q = cons_last z xs q

-- The versions that a scope lets through.
abbrev pub InScope : Scope → Version → Version → Type 0
InScope Scope.patch current v = (v.major ≡ current.major) × (v.minor ≡ current.minor)
InScope Scope.minor current v = v.major ≡ current.major
InScope Scope.all current v = Unit
InScope Scope.major current v = Unit

in_scope_iff :
    (scope : Scope) (current v : Version)
    → (in_scope scope current v ≡ true) ↔ InScope scope current v
in_scope_iff Scope.patch current v = ground arith
in_scope_iff Scope.minor current v = ground arith
in_scope_iff Scope.all current v = (λ e. tt, λ u. refl)
in_scope_iff Scope.major current v = (λ e. tt, λ u. refl)

is_nil_iff : (s : Text) → (is_nil s ≡ true) ↔ (s ≡ [])
is_nil_iff [] = (λ e. refl, λ e. refl)
is_nil_iff (c ∷ s) = (λ e. absurd (cc e), λ e. absurd (cc e))

module _ (lib : SemverLibrary) (current : Version) (scope : Scope) where
  -- A stable version that is greater than the current one and that the scope lets through.
  abbrev pub IsUpdate : Version → Type 0
  IsUpdate v = (v.prerelease ≡ []) × (lib.greater_than v current ≡ true) × InScope scope current v

  is_eligible_iff : (v : Version) → (is_eligible lib current scope v ≡ true) ↔ IsUpdate v
  unfolding is_eligible
  is_eligible_iff v =
      let stable = is_nil_iff v.prerelease in
      let scoped = in_scope_iff scope current v in
      (
        λ h.
            let (sg, k) =
              (&&_iff (is_stable v && lib.greater_than v current) (in_scope scope current v)).0 h in
            let (s, g) = (&&_iff (is_stable v) (lib.greater_than v current)).0 sg in
            (stable.0 s, g, scoped.0 k),
        λ u. let (s, g, k) = u in rw (stable.1 s, g, scoped.1 k) refl,
      )

  -- An update that a text of the list parses to.
  abbrev pub Candidate : List Text → Version → Type 0
  Candidate tags v = (t : Text) × Memᴰ t tags × (lib.parse t ≡ some v) × IsUpdate v

  later : (t : Text) (tags : List Text) (v : Version) → Candidate tags v → Candidate (t ∷ tags) v
  later t tags v (u, m, p, e) = (u, Memᴰ.tail m, p, e)

  pub mem_of_eligible :
      (tags : List Text) (v : Version)
      → Memᴰ v (eligible_versions lib current tags scope)
      → Candidate tags v
  unfolding eligible_versions
  mem_of_eligible [] v m = elim m [ ]
  mem_of_eligible (t ∷ tags) v m = elim (Option-cases (lib.parse t)) [
    | inl e ↦ later t tags v (mem_of_eligible tags v (rw e at m))
    | inr (w, e) ↦ elim (Bool-cases (is_eligible lib current scope w)) [
      | inr k ↦ later t tags v (mem_of_eligible tags v (rw (e, k) at m))
      | inl k ↦ elim (Memᴰ.cases_cons (rw (e, k) at m)) [
        | inl q ↦ (t, Memᴰ.head refl, rw q e, rw q ((is_eligible_iff w).0 k))
        | inr n ↦ later t tags v (mem_of_eligible tags v n)
      ]
    ]
  ]

  pub eligible_of_mem :
      (tags : List Text) (v : Version) (t : Text)
      → Memᴰ t tags
      → lib.parse t ≡ some v
      → IsUpdate v
      → Memᴰ v (eligible_versions lib current tags scope)
  unfolding eligible_versions
  eligible_of_mem [] v t m e k = elim m [ ]
  eligible_of_mem (u ∷ tags) v t (Memᴰ.head q) e k =
      rw ((rw q at e), (is_eligible_iff v).1 k) (Memᴰ.head refl)
  eligible_of_mem (u ∷ tags) v t (Memᴰ.tail m) e k =
      add_candidate-mem (lib.parse u) (eligible_of_mem tags v t m e k)
    where
      add_candidate-mem :
          (o : Option Version)
          → Memᴰ v (eligible_versions lib current tags scope)
          → Memᴰ v (add_candidate lib current scope o (eligible_versions lib current tags scope))
      add_candidate-mem none n = n
      add_candidate-mem (some w) n = elim (Bool-cases (is_eligible lib current scope w)) [
        | inl b ↦ rw b (Memᴰ.tail n)
        | inr b ↦ rw b n
      ]

  -- The text of a candidate that no candidate is greater than, or no candidate at all.
  abbrev pub IsLatest : List Text → Text → Type 0
  IsLatest tags latest =
      ((v : Version) × Candidate tags v
        × (v.original ≡ latest)
        × (latest ≢ [])
        × ((w : Version) → Candidate tags w → lib.greater_than w v ≡ false))
      ⊎ ((latest ≡ []) × ((w : Version) → ¬ Candidate tags w))

module _ (lib : SemverLibrary) (laws : SemverLaws lib) (current : Version) (scope : Scope) where
  mem-candidates :
      (tags : List Text) (w : Version)
      → Candidate lib current scope tags w
      → Memᴰ w (lib.sorted (eligible_versions lib current tags scope))
  mem-candidates tags w (t, m, p, e) =
      (laws.mem-sorted w (eligible_versions lib current tags scope)).1
        (eligible_of_mem lib current scope tags w t m p e)

  no_mem : {w : Version} → Memᴰ w [] → ⊥
  no_mem m = elim m [ ]

  greatest :
      (tags : List Text) (v : Version) (front : List Version)
      → lib.sorted (eligible_versions lib current tags scope) ≡ front ++ v ∷ []
      → (w : Version) → Memᴰ w (lib.sorted (eligible_versions lib current tags scope))
      → lib.greater_than w v ≡ false
  greatest tags v front q w m = elim (Memᴰ.append_cases front (rw q at m)) [
    | inl k ↦
        All-mem (λ (x : Version). lib.greater_than x v ≡ false) k
          (laws.sorted-last (eligible_versions lib current tags scope) front v q)
    | inr k ↦ rw (Memᴰ.eq_of_singleton k) (laws.greater-irrefl v)
  ]

  named : (tags : List Text) (v : Version) → Candidate lib current scope tags v → v.original ≢ []
  named tags v (t, m, p, e) = λ q. unread t p (sym (laws.parse-original t v p) ∙ q)
    where
      unread : (s : Text) → lib.parse s ≡ some v → s ≡ [] → ⊥
      unread s p' q = cc (p', ap lib.parse q, laws.parse-nil)

  last-IsLatest :
      (tags : List Text) (o : Option Version)
      → last (lib.sorted (eligible_versions lib current tags scope)) ≡ o
      → IsLatest lib current scope tags (original_of o)
  last-IsLatest tags none e =
      let vs = lib.sorted (eligible_versions lib current tags scope) in
      inr (refl, λ w c. no_mem (rw (last-none vs e) at (mem-candidates tags w c)))
  last-IsLatest tags (some v) e =
      let vs = eligible_versions lib current tags scope in
      let (front, q) = last-front (lib.sorted vs) v e in
      let m : Memᴰ v (lib.sorted vs) = rw q (Memᴰ.append_right front (Memᴰ.head refl)) in
      let c = mem_of_eligible lib current scope tags v ((laws.mem-sorted v vs).0 m) in
      inl (v, c, refl, named tags v c, λ w d. greatest tags v front q w (mem-candidates tags w d))

  -- The version picked from a list of tags is that of a tag: a stable version greater than the
  -- current one, of the same major (and minor) version where the scope says so, and no other such
  -- version of the list is greater. It is empty just when the list has no such version.
  pub latest_from_tags-IsLatest :
      (tags : List Text) → IsLatest lib current scope tags (latest_from_tags lib current tags scope)
  unfolding latest_from_tags
  latest_from_tags-IsLatest tags = last-IsLatest tags _ refl
