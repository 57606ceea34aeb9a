-- ===== src/Config/Written.antt =====
-- How the location of a repository is taken apart where it is written out of parts:
-- internal/config/config.go, `userinfo` and `classifyRepoURL`.
use mathlib.Core.List.{append-nil}
use yk_update_checker.Gitsync.Redact.{slashed}
use yk_update_checker.Registry.Tag.{has_code}
use yk_update_checker.Text.{span, Text, has_prefix, has_infix, is_nil, codes, text_eq, text_eq_iff}
use yk_update_checker.Config.Location.{
  last_index, in_front, scheme_of, cut_infix, after_prefix, https, last_index_of,
}
use yk_update_checker.Prelude.{
  ◌≡◌, ℕ, ◌++◌, some, Option, Bool, take, none, false, not, ◌∷◌, true, length, ◌==◌, ap, arith,
  &&_iff, [], ◌+◌, refl, Bool-cases, ap₂, ==_iff, inl, inr, ◌||◌, ◌∙◌,
}

-- The test of a scan that stops at a code point.
abbrev pub other_than : ℕ → ℕ → Bool
other_than b c = not (c == b)

pub span_until :
    (b : ℕ) (s t : Text) → has_code b s ≡ false → span (other_than b) (s ++ b ∷ t) ≡ (s, b ∷ t)
unfolding span
span_until b [] t h = ground arith
span_until b (c ∷ s) t h = ground (arith, span_until b s t)

pub span_all : (b : ℕ) (s : Text) → has_code b s ≡ false → span (other_than b) s ≡ (s, [])
unfolding span
span_all b [] h = refl
span_all b (c ∷ s) h = ground (arith, span_all b s)

pub span-slashed :
    (s : Text) (path : Option Text)
    → has_code b'/' s ≡ false
    → (span (other_than b'/') (s ++ slashed path)).0 ≡ s
span-slashed s none h = rw (append-nil s, span_all b'/' s h) refl
span-slashed s (some path) h = rw (span_until b'/' s path h) refl

last_index-none :
    (b i : ℕ) (found : Option ℕ) (s : Text) → has_code b s ≡ false → last_index b i found s ≡ found
unfolding last_index
last_index-none b i found [] h = refl
last_index-none b i found (c ∷ s) h = ground (arith, last_index-none b (i + 1) found s)

last_index-append :
    (b i : ℕ) (found : Option ℕ) (s t : Text)
    → has_code b t ≡ false
    → last_index b i found (s ++ b ∷ t) ≡ some (i + length s)
unfolding last_index
last_index-append b i found [] t h =
    rw ((==_iff b b).1 refl, last_index)
      (last_index-none b (i + 1) (some i) t h ∙ ap some (omega arith))
last_index-append b i found (c ∷ s) t h =
    last_index-append b (i + 1) _ s t h ∙ ap some (omega arith)

pub last_index_of-append :
    (b : ℕ) (s t : Text) → has_code b t ≡ false → last_index_of b (s ++ b ∷ t) ≡ some (length s)
last_index_of-append b s t h = last_index-append b 0 none s t h ∙ ap some (omega arith)

pub take-append : (s t : Text) → take (length s) (s ++ t) ≡ s
take-append [] t = refl
take-append (c ∷ s) t = ap (λ u. c ∷ u) (take-append s t)

-- The cut at a separator puts the parts back together.
has_prefix-after : (p s : Text) → has_prefix s p ≡ true → s ≡ p ++ after_prefix p s
unfolding has_prefix after_prefix
has_prefix-after [] s h = refl
has_prefix-after (d ∷ p) [] h = absurd (cc h)
has_prefix-after (d ∷ p) (c ∷ s) h =
    let (e, f) = (&&_iff (c == d) (has_prefix s p)).0 h in
    ap₂ (λ x t. x ∷ t) ((==_iff c d).0 e) (has_prefix-after p s f)

abbrev pub Cuts : Text → Text → Option (Text × Text) → Type 0
Cuts sep u none = Unit
Cuts sep u (some (s, t)) = u ≡ s ++ (sep ++ t)

in_front-Cuts :
    (sep : Text) (c : ℕ) (u : Text) (o : Option (Text × Text))
    → Cuts sep u o
    → Cuts sep (c ∷ u) (in_front c o)
unfolding in_front
in_front-Cuts sep c u none h = tt
in_front-Cuts sep c u (some (s, t)) h = ap (λ v. c ∷ v) h

pub cut_infix-Cuts : (sep u : Text) → Cuts sep u (cut_infix sep u)
unfolding cut_infix
cut_infix-Cuts [] [] = refl
cut_infix-Cuts (d ∷ sep) [] = tt
cut_infix-Cuts sep (c ∷ u) = elim (Bool-cases (has_prefix (c ∷ u) sep)) [
  | inl e ↦ rw e (has_prefix-after sep (c ∷ u) e)
  | inr e ↦ rw e (in_front-Cuts sep c u (cut_infix sep u) (cut_infix-Cuts sep u))
]

or_false : (x y : Bool) → (x || y) ≡ false → (x ≡ false) × (y ≡ false)
or_false x y h = (ground arith, ground arith)

-- Where the separator does not occur there is no cut.
pub cut_infix-none :
    (sep u : Text) → is_nil sep ≡ false → has_infix u sep ≡ false → cut_infix sep u ≡ none
unfolding cut_infix has_infix in_front
cut_infix-none sep [] h k = rw h refl
cut_infix-none sep (c ∷ u) h k =
    let (e, f) = or_false (has_prefix (c ∷ u) sep) (has_infix u sep) k in
    rw (e, cut_infix-none sep u h f) refl

-- A text holds its middle part.
has_prefix-append : (p t : Text) → has_prefix (p ++ t) p ≡ true
unfolding has_prefix
has_prefix-append [] t = refl
has_prefix-append (c ∷ p) t = rw ((==_iff c c).1 refl) (has_prefix-append p t)

pub has_infix-append : (s p t : Text) → has_infix (s ++ (p ++ t)) p ≡ true
unfolding has_infix has_prefix
has_infix-append [] [] [] = refl
has_infix-append [] [] (c ∷ t) = refl
has_infix-append [] (c ∷ p) t = rw (has_prefix-append (c ∷ p) t) refl
has_infix-append (c ∷ s) p t = ground (arith, has_infix-append s p t)

pub scheme_of-https : (s : Text) → scheme_of s ≡ some https → s ≡ codes "https"
unfolding scheme_of
scheme_of-https s h = elim (Bool-cases (text_eq s (codes "https"))) [
  | inl e ↦ (text_eq_iff s (codes "https")).0 e
  | inr e ↦ absurd (ground arith)
]
