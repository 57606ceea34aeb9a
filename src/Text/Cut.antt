-- ===== src/Text/Cut.antt =====
-- Texts cut in two at a code point or at a text, with what the parts have in common.
use yk_update_checker.Prelude.{
  reverse, Bool, ℕ, if◌then◌else◌, suc, ◌≡◌, Option, any, none, some, false, ◌==◌, ◌∷◌, length, [],
  ◌++◌, zero, Bool-cases, arith, refl, inl, ap, sym, ==_iff, inr, ◌∙◌, true,
}
use yk_update_checker.Text.{Text, has_prefix}

-- `strings.Cut` at one code point: the text before its first occurrence, and what follows if it
-- occurs.
unfoldable pub cut : ℕ → Text → Text × Option Text
cut b [] = ([], none)
cut b (c ∷ s) = let (front, back) = cut b s in if c == b then ([], some s) else (c ∷ front, back)

-- The texts before and after the last occurrence of a code point: what `strings.LastIndexByte` and
-- two slices give.
at_end : ℕ → ℕ → Text → Option (Text × Text) → Option (Text × Text)
at_end b c s (some (x, y)) = some (c ∷ x, y)
at_end b c s none = if c == b then some ([], s) else none

unfoldable pub cut_last : ℕ → Text → Option (Text × Text)
unfolding at_end
cut_last b [] = none
cut_last b (c ∷ s) = at_end b c s (cut_last b s)

abbrev pub has_code : ℕ → Text → Bool
has_code b s = any (λ c. c == b) s

-- `strings.HasSuffix`, `strings.TrimPrefix`, `strings.TrimSuffix`
abbrev pub has_suffix : Text → Text → Bool
has_suffix s t = has_prefix (reverse s) (reverse t)

unfoldable pub drop : ℕ → Text → Text
drop zero s = s
drop (suc n) [] = []
drop (suc n) (c ∷ s) = drop n s

abbrev pub trim_prefix : Text → Text → Text
trim_prefix s p = if has_prefix s p then drop (length p) s else s

abbrev pub trim_suffix : Text → Text → Text
trim_suffix s p = reverse (trim_prefix (reverse s) (reverse p))

-- The text in front, then the code point and the rest, if it occurs.
abbrev pub rejoin : ℕ → Text × Option Text → Text
rejoin b (front, none) = front
rejoin b (front, some back) = front ++ b ∷ back

pub rejoin-cut : (b : ℕ) (s : Text) → rejoin b (cut b s) ≡ s
unfolding cut
rejoin-cut b [] = refl
rejoin-cut b (c ∷ s) = elim (Bool-cases (c == b)) [
  | inl e ↦ rw e (ap (λ d. d ∷ s) (sym ((==_iff c b).0 e)))
  | inr e ↦ rw e (rejoin-cons c (cut b s) ∙ ap (λ t. c ∷ t) (rejoin-cut b s))
]
  where
    rejoin-cons : (d : ℕ) (x : Text × Option Text) → rejoin b (d ∷ x.0, x.1) ≡ d ∷ rejoin b x
    rejoin-cons d (front, none) = refl
    rejoin-cons d (front, some back) = refl

-- A text without the code point in front is cut just there.
pub cut-append : (b : ℕ) (s t : Text) → has_code b s ≡ false → cut b (s ++ b ∷ t) ≡ (s, some t)
unfolding cut
cut-append b [] t h = ground arith
cut-append b (c ∷ s) t h = ground (arith, cut-append b s t)

pub cut-none : (b : ℕ) (s : Text) → has_code b s ≡ false → cut b s ≡ (s, none)
unfolding cut
cut-none b [] h = refl
cut-none b (c ∷ s) h = ground (arith, cut-none b s)

pub cut-front : (b : ℕ) (s : Text) → has_code b (cut b s).0 ≡ false
unfolding cut
cut-front b [] = refl
cut-front b (c ∷ s) = ground (arith, cut-front b s)

pub cut_last-none : (b : ℕ) (s : Text) → has_code b s ≡ false → cut_last b s ≡ none
unfolding cut_last
cut_last-none b [] h = refl
cut_last-none b (c ∷ s) h = ground (arith, cut_last-none b s)

pub cut_last-append :
    (b : ℕ) (s t : Text) → has_code b t ≡ false → cut_last b (s ++ b ∷ t) ≡ some (s, t)
unfolding cut_last
cut_last-append b [] t h = ground (arith, cut_last-none b t)
cut_last-append b (c ∷ s) t h = ground (arith, cut_last-append b s t)

-- The two texts of a cut at the last occurrence, with the code point not in the second.
abbrev pub Joins : ℕ → Text → Option (Text × Text) → Type 0
Joins b s none = has_code b s ≡ false
Joins b s (some (x, y)) = (x ++ b ∷ y ≡ s) × (has_code b y ≡ false)

at_end-Joins :
    (b c : ℕ) (s : Text) (o : Option (Text × Text)) → Joins b s o → Joins b (c ∷ s) (at_end b c s o)
unfolding at_end
at_end-Joins b c s none h = elim (Bool-cases (c == b)) [
  | inl e ↦ rw e (ap (λ d. d ∷ s) (sym ((==_iff c b).0 e)), h)
  | inr e ↦ rw e (ground arith)
]
at_end-Joins b c s (some (x, y)) (e, h) = (ap (λ t. c ∷ t) e, h)

pub cut_last-Joins : (b : ℕ) (s : Text) → Joins b s (cut_last b s)
unfolding cut_last
cut_last-Joins b [] = refl
cut_last-Joins b (c ∷ s) = at_end-Joins b c s (cut_last b s) (cut_last-Joins b s)

-- Where a code point stands behind the last occurrence, the second text has it.
abbrev pub KeepsCode : ℕ → Option (Text × Text) → Type 0
KeepsCode d none = Unit
KeepsCode d (some (x, y)) = has_code d y ≡ true

has_code-behind : (d : ℕ) (s t : Text) → has_code d (s ++ d ∷ t) ≡ true
has_code-behind d [] t = ground arith
has_code-behind d (c ∷ s) t = ground (arith, has_code-behind d s t)

at_end-KeepsCode :
    (b c d : ℕ) (s : Text) (o : Option (Text × Text))
    → has_code d s ≡ true
    → KeepsCode d o
    → KeepsCode d (at_end b c s o)
unfolding at_end
at_end-KeepsCode b c d s (some (x, y)) h k = k
at_end-KeepsCode b c d s none h k = elim (Bool-cases (c == b)) [ inl e ↦ rw e h | inr e ↦ rw e tt ]

pub cut_last-KeepsCode :
    (b d : ℕ) (s t : Text)
    → (d == b) ≡ false
    → has_code b t ≡ false
    → KeepsCode d (cut_last b (s ++ d ∷ t))
unfolding cut_last at_end
cut_last-KeepsCode b d [] t e h = rw (cut_last-none b t h, e) tt
cut_last-KeepsCode b d (c ∷ s) t e h =
    at_end-KeepsCode b c d (s ++ d ∷ t) _ (has_code-behind d s t) (cut_last-KeepsCode b d s t e h)
