-- ===== src/Text/Joined.antt =====
-- Texts joined by a code point that none of them has are split again into the same texts.
use yk_update_checker.Prelude.{
  ℕ, ◌≡◌, List, ◌∷◌, ◌==◌, false, [], All, true, ==_iff, ◌++◌, ap, arith, sym, refl, ◌∙◌,
}
use mathlib.Core.List.{append-nil, append_assoc}
use yk_update_checker.Text.{Text, split, split_from, join}
use yk_update_checker.Text.Cut.{has_code}

==-refl : (b : ℕ) → (b == b) ≡ true
==-refl b = (==_iff b b).1 refl

pub has_code-cons :
    (b c : ℕ) (s : Text) → has_code b (c ∷ s) ≡ false → ((c == b) ≡ false) × (has_code b s ≡ false)
has_code-cons b c s h = ground (arith, h)

pub split_from-append :
    (b : ℕ) (part s t : Text)
    → has_code b s ≡ false
    → split_from b part (s ++ b ∷ t) ≡ (part ++ s) ∷ split_from b [] t
unfolding split_from
split_from-append b part [] t h =
    rw (==-refl b) (ap (λ p. p ∷ split_from b [] t) (sym (append-nil part)))
split_from-append b part (c ∷ s) t h =
    let (n, k) = has_code-cons b c s h in
    rw n (
      split_from-append b (part ++ c ∷ []) s t k
      ∙ ap (λ p. p ∷ split_from b [] t) (append_assoc part (c ∷ []) s))

split_from-none :
    (b : ℕ) (part s : Text) → has_code b s ≡ false → split_from b part s ≡ (part ++ s) ∷ []
unfolding split_from
split_from-none b part [] h = ap (λ p. p ∷ []) (sym (append-nil part))
split_from-none b part (c ∷ s) h =
    let (n, k) = has_code-cons b c s h in
    rw n (split_from-none b (part ++ c ∷ []) s k ∙ ap (λ p. p ∷ []) (append_assoc part (c ∷ []) s))

-- The texts have none of the code point.
abbrev pub IsClean : ℕ → List Text → Type 0
IsClean b ls = All (λ s. has_code b s ≡ false) ls

pub split-join :
    (b : ℕ) (s : Text) (ls : List Text)
    → IsClean b (s ∷ ls)
    → split b (join (b ∷ []) (s ∷ ls)) ≡ s ∷ ls
unfolding split
split-join b s [] (h, c) = split_from-none b [] s h
split-join b s (t ∷ ls) (h, c) =
    ap (split_from b []) (append_assoc s (b ∷ []) (join (b ∷ []) (t ∷ ls)))
    ∙ split_from-append b [] s (join (b ∷ []) (t ∷ ls)) h
    ∙ ap (λ r. s ∷ r) (split-join b t ls c)

pub join-inj :
    (b : ℕ) (s t : Text) (ls ms : List Text)
    → IsClean b (s ∷ ls)
    → IsClean b (t ∷ ms)
    → join (b ∷ []) (s ∷ ls) ≡ join (b ∷ []) (t ∷ ms)
    → ◌≡◌ {A = List Text} (s ∷ ls) (t ∷ ms)
join-inj b s t ls ms c d e = sym (split-join b s ls c) ∙ ap (split b) e ∙ split-join b t ms d
