-- ===== src/Registry/Charts/Update.antt =====
-- internal/registry/charts.go and scope.go: the version found, the bump reported for it and the
-- scope that was asked for agree.
use yk_update_checker.Prelude.{
  ◌≡◌, Option, ◌≢◌, some, [], true, ◌⊎◌, arith, none, Bool-cases, ◌==◌, inl, inr, List, false, ap,
  ◌∷◌, refl, sym, ◌∙◌, ==_iff,
}
use yk_update_checker.Registry.Charts.{
  Version, SemverLibrary, latest_from_tags, is_newer_chart, chart_scope,
}
use yk_update_checker.Registry.Bump.{Bump, bump_of}
use yk_update_checker.Registry.Charts.Eligible.{SemverLaws, latest_from_tags-IsLatest, InScope}
use yk_update_checker.Registry.Scope.{Scope}
use yk_update_checker.Text.{Text, is_nil, text_eq, text_eq_iff}

-- The bumps that a scope lets through.
abbrev pub Allows : Scope → Option Bump → Type 0
Allows Scope.patch b = b ≡ some Bump.patch
Allows Scope.minor b = (b ≡ some Bump.patch) ⊎ (b ≡ some Bump.minor)
Allows Scope.all b = b ≢ none
Allows Scope.major b = b ≢ none

bump_of-Allows :
    (scope : Scope) (c v : Version)
    → InScope scope c v
    → Allows scope (some (bump_of v.major c.major v.minor c.minor))
unfolding bump_of
bump_of-Allows Scope.patch c v (h, k) =
    rw (h, k, (==_iff c.major c.major).1 refl, (==_iff c.minor c.minor).1 refl) refl
bump_of-Allows Scope.minor c v h = elim (Bool-cases (v.minor == c.minor)) [
  | inl e ↦ inl (ground (arith, h, e))
  | inr e ↦ inr (ground (arith, h, e))
]
bump_of-Allows Scope.all c v h = λ e. cc e
bump_of-Allows Scope.major c v h = λ e. cc e

named : (s : Text) → s ≢ [] → is_nil s ≡ false
named [] n = absurd (n refl)
named (x ∷ s) n = refl

differs : (s t : Text) → s ≢ t → text_eq s t ≡ false
differs s t n = elim (Bool-cases (text_eq s t)) [
  | inl e ↦ absurd (n ((text_eq_iff s t).0 e))
  | inr e ↦ e
]

module _ (lib : SemverLibrary) (laws : SemverLaws lib) (current : Text) (c : Version)
    (scope : Scope) where
  chart_scope-parsed :
      (latest : Text) (v : Version)
      → latest ≢ []
      → current ≢ latest
      → lib.parse latest ≡ some v
      → lib.parse current ≡ some c
      → chart_scope lib current latest ≡ some (bump_of v.major c.major v.minor c.minor)
  unfolding chart_scope
  chart_scope-parsed latest v n d e p =
      rw (named latest n, differs current latest d, chart_scope, e, p) refl

  is_newer_chart-parsed :
      (latest : Text) (v : Version)
      → latest ≢ []
      → lib.parse latest ≡ some v
      → lib.parse current ≡ some c
      → is_newer_chart lib latest current ≡ lib.greater_than v c
  unfolding is_newer_chart
  is_newer_chart-parsed latest v n e p = rw (named latest n, is_newer_chart, e, p) refl

  unequal :
      (latest : Text) (v : Version)
      → lib.parse latest ≡ some v
      → lib.parse current ≡ some c
      → lib.greater_than v c ≡ true
      → current ≢ latest
  unequal latest v e p g = λ q. same (cc (e, p, ap lib.parse q))
    where
      same : v ≡ c → ⊥
      same q = cc (laws.greater-irrefl c, g, ap (λ x. lib.greater_than x c) q)

  -- The version picked for a chart whose declared version is `current`, where there is one, is
  -- reported as an update, and the bump reported for it is one that the scope lets through: a patch
  -- under the scope `patch`, no major bump under `minor`.
  pub latest_from_tags-Allows :
      (tags : List Text)
      → lib.parse current ≡ some c
      → latest_from_tags lib c tags scope ≢ []
      → (is_newer_chart lib (latest_from_tags lib c tags scope) current ≡ true)
        × Allows scope (chart_scope lib current (latest_from_tags lib c tags scope))
  latest_from_tags-Allows tags p n = elim (latest_from_tags-IsLatest lib laws c scope tags) [
    | inr (e, _) ↦ absurd (n e)
    | inl (v, (t, m, q, (_, g, k)), o, _, _) ↦
        let e : lib.parse (latest_from_tags lib c tags scope) ≡ some v =
          ap lib.parse (sym o ∙ laws.parse-original t v q) ∙ q in
        (
          is_newer_chart-parsed (latest_from_tags lib c tags scope) v n e p ∙ g,
          rw (chart_scope-parsed (latest_from_tags lib c tags scope) v n (unequal _ v e p g) e p)
              (bump_of-Allows scope c v k),
        )
  ]
