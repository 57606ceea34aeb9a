-- ===== src/Registry/Tag/Sha.antt =====
-- What `shaLike` looks for in a word, stated without its flags.
use yk_update_checker.Prelude.{
  ℕ, true, false, [], ◌∷◌, ◌≡◌, arith, inl, inr, Bool-cases, ◌↔◌, sym, ◌∙◌, List, Bool, ◌⊎◌, any,
  refl,
}
use yk_update_checker.Text.{Text, is_digit, is_letter}
use yk_update_checker.Registry.Tag.{
  WordScan, scan_rune, scan_word, sha_like, fields, fresh_word, is_tag_sep,
}

pub data HasDigit : Text → Type 0 where
  here : {c : ℕ} {s : Text} → is_digit c ≡ true → HasDigit (c ∷ s)
  there : {c : ℕ} {s : Text} → HasDigit s → HasDigit (c ∷ s)

-- The next digit or letter is a letter, and a digit comes after it.
pub data LetterNext : Text → Type 0 where
  letter : {c : ℕ} {s : Text} → is_letter c ≡ true → HasDigit s → LetterNext (c ∷ s)
  other :
      {c : ℕ} {s : Text}
      → is_digit c ≡ false
      → is_letter c ≡ false
      → LetterNext s
      → LetterNext (c ∷ s)

-- A digit, then a letter with no other digit or letter between, then a digit anywhere after.
pub data Interleaves : Text → Type 0 where
  digit : {c : ℕ} {s : Text} → is_digit c ≡ true → LetterNext s → Interleaves (c ∷ s)
  later : {c : ℕ} {s : Text} → Interleaves s → Interleaves (c ∷ s)

not_both : (c : ℕ) → is_digit c ≡ true → is_letter c ≡ true → ⊥
not_both c d l = ground arith

module _ (w : WordScan) (c : ℕ) (s : Text) where
  scan_step :
      (scan_rune w c).digit_after_letter ≡ false → scan_word w (c ∷ s) ≡ scan_word (scan_rune w c) s
  unfolding scan_word
  scan_step h = ground arith

  scan_hit :
      (scan_rune w c).saw_digit ≡ true
      → (scan_rune w c).digit_after_letter ≡ true
      → scan_word w (c ∷ s) ≡ true
  unfolding scan_word
  scan_hit h k = ground arith

-- A letter has followed a digit: any digit decides.
scan_armed :
    (w : WordScan) (s : Text)
    → w.letter_after_digit ≡ true
    → w.digit_after_letter ≡ false
    → (scan_word w s ≡ true) ↔ HasDigit s
unfolding scan_word scan_rune
scan_armed w [] a b = (λ h. absurd (cc h), λ h. elim h [ ])
scan_armed w (c ∷ s) a b = elim (Bool-cases (is_digit c)) [
  | inl d ↦ (λ _. here d, λ _. scan_hit w c s (ground arith) (ground arith))
  | inr d ↦
      let ih = scan_armed (scan_rune w c) s (ground arith) (ground arith) in
      let same = scan_step w c s (ground arith) in
      (λ h. there (ih.0 (sym same ∙ h)), λ h. same ∙ ih.1 (HasDigit-tail d h))
]
  where
    HasDigit-tail : {c : ℕ} {s : Text} → is_digit c ≡ false → HasDigit (c ∷ s) → HasDigit s
    HasDigit-tail d (here e) = absurd (cc)
    HasDigit-tail d (there h) = h

HasDigit-of_LetterNext : {s : Text} → LetterNext s → HasDigit s
HasDigit-of_LetterNext (letter l h) = there h
HasDigit-of_LetterNext (other d l n) = there (HasDigit-of_LetterNext n)

HasDigit-of_Interleaves : {s : Text} → Interleaves s → HasDigit s
HasDigit-of_Interleaves (digit d n) = here d
HasDigit-of_Interleaves (later i) = there (HasDigit-of_Interleaves i)

abbrev Pending : Text → Type 0
Pending s = LetterNext s ⊎ Interleaves s

module _ (c : ℕ) (s : Text) where
  Pending-digit : is_digit c ≡ true → Pending (c ∷ s) ↔ Pending s
  Pending-digit d = (
    λ p. elim p [ inl n ↦ of_next n | inr i ↦ of_later i ],
    λ p. inr (elim p [ inl n ↦ digit d n | inr i ↦ later i ]),
  )
    where
      of_next : LetterNext (c ∷ s) → Pending s
      of_next (letter l h) = absurd (not_both c d l)
      of_next (other e l n) = inl n

      of_later : Interleaves (c ∷ s) → Pending s
      of_later (digit e n) = inl n
      of_later (later i) = inr i

  Pending-letter : is_digit c ≡ false → is_letter c ≡ true → Pending (c ∷ s) ↔ HasDigit s
  Pending-letter d l =
      (λ p. elim p [ inl n ↦ of_next n | inr i ↦ of_later i ], λ h. inl (letter l h))
    where
      of_next : LetterNext (c ∷ s) → HasDigit s
      of_next (letter l h) = h
      of_next (other e k n) = HasDigit-of_LetterNext n

      of_later : Interleaves (c ∷ s) → HasDigit s
      of_later (digit e n) = absurd (cc)
      of_later (later i) = HasDigit-of_Interleaves i

  Pending-other : is_digit c ≡ false → is_letter c ≡ false → Pending (c ∷ s) ↔ Pending s
  Pending-other d l = (
    λ p. elim p [ inl n ↦ of_next n | inr i ↦ of_later i ],
    λ p. elim p [ inl n ↦ inl (other d l n) | inr i ↦ inr (later i) ],
  )
    where
      of_next : LetterNext (c ∷ s) → Pending s
      of_next (letter k h) = absurd (cc)
      of_next (other e k n) = inl n

      of_later : Interleaves (c ∷ s) → Pending s
      of_later (digit e n) = absurd (cc)
      of_later (later i) = inr i

  Interleaves-digit : is_digit c ≡ true → Interleaves (c ∷ s) ↔ Pending s
  Interleaves-digit d =
      (λ i. (Pending-digit d).0 (inr i), λ p. elim p [ inl n ↦ digit d n | inr i ↦ later i ])

  Interleaves-other : is_digit c ≡ false → Interleaves (c ∷ s) ↔ Interleaves s
  Interleaves-other d = (of_later, λ i. later i)
    where
      of_later : Interleaves (c ∷ s) → Interleaves s
      of_later (digit e n) = absurd (cc)
      of_later (later i) = i

iff_trans {ℓ} : {A B C : Type ℓ} → A ↔ B → B ↔ C → A ↔ C
iff_trans f g = (λ a. g.0 (f.0 a), λ c. f.1 (g.1 c))

iff_sym {ℓ} : {A B : Type ℓ} → A ↔ B → B ↔ A
iff_sym f = (f.1, f.0)

iff_of_eq : {a b : Bool} → a ≡ b → (a ≡ true) ↔ (b ≡ true)
iff_of_eq e = (λ h. sym e ∙ h, λ h. e ∙ h)

-- The last rune was a digit, or nothing but other runes came after it.
scan-Pending :
    (w : WordScan) (s : Text)
    → w.prev_digit ≡ true
    → w.letter_after_digit ≡ false
    → w.digit_after_letter ≡ false
    → (scan_word w s ≡ true) ↔ Pending s
unfolding scan_word scan_rune
scan-Pending w [] p a b =
    (λ h. absurd (cc h), λ h. elim h [ inl n ↦ elim n [ ] | inr i ↦ elim i [ ] ])
scan-Pending w (c ∷ s) p a b =
    iff_trans (iff_of_eq (scan_step w c s (ground arith))) (elim (Bool-cases (is_digit c)) [
      | inl d ↦
          iff_trans (scan-Pending (scan_rune w c) s (ground arith) (ground arith) (ground arith))
            (iff_sym (Pending-digit c s d))
      | inr d ↦ elim (Bool-cases (is_letter c)) [
        | inl l ↦
            iff_trans (scan_armed (scan_rune w c) s (ground arith) (ground arith))
              (iff_sym (Pending-letter c s d l))
        | inr l ↦
            iff_trans (scan-Pending (scan_rune w c) s (ground arith) (ground arith) (ground arith))
              (iff_sym (Pending-other c s d l))
      ]
    ])

scan_idle :
    (w : WordScan) (s : Text)
    → w.prev_digit ≡ false
    → w.letter_after_digit ≡ false
    → w.digit_after_letter ≡ false
    → (scan_word w s ≡ true) ↔ Interleaves s
unfolding scan_word scan_rune
scan_idle w [] p a b = (λ h. absurd (cc h), λ i. elim i [ ])
scan_idle w (c ∷ s) p a b =
    iff_trans (iff_of_eq (scan_step w c s (ground arith))) (elim (Bool-cases (is_digit c)) [
      | inl d ↦
          iff_trans (scan-Pending (scan_rune w c) s (ground arith) (ground arith) (ground arith))
            (iff_sym (Interleaves-digit c s d))
      | inr d ↦
          iff_trans (scan_idle (scan_rune w c) s (ground arith) (ground arith) (ground arith))
            (iff_sym (Interleaves-other c s d))
    ])

-- Some word of the list interleaves digits and letters.
pub data AnyInterleaves : List Text → Type 0 where
  here : {s : Text} {ss : List Text} → Interleaves s → AnyInterleaves (s ∷ ss)
  there : {s : Text} {ss : List Text} → AnyInterleaves ss → AnyInterleaves (s ∷ ss)

AnyInterleaves-cons :
    (s : Text) (ss : List Text)
    → (any (scan_word fresh_word) ss ≡ true) ↔ AnyInterleaves ss
    → (any (scan_word fresh_word) (s ∷ ss) ≡ true) ↔ AnyInterleaves (s ∷ ss)
AnyInterleaves-cons s ss rest = (to (Bool-cases (scan_word fresh_word s)), back)
  where
    word : (scan_word fresh_word s ≡ true) ↔ Interleaves s
    word = scan_idle fresh_word s refl refl refl

    to :
        (scan_word fresh_word s ≡ true) ⊎ (scan_word fresh_word s ≡ false)
        → any (scan_word fresh_word) (s ∷ ss) ≡ true
        → AnyInterleaves (s ∷ ss)
    to (inl e) h = here (word.0 e)
    to (inr e) h = there (rest.0 (rw e at h))

    back : AnyInterleaves (s ∷ ss) → any (scan_word fresh_word) (s ∷ ss) ≡ true
    back (here i) = rw (word.1 i) refl
    back (there h) = ground (arith, rest.1 h)

any-AnyInterleaves : (ss : List Text) → (any (scan_word fresh_word) ss ≡ true) ↔ AnyInterleaves ss
any-AnyInterleaves [] = (λ h. absurd (cc h), λ h. elim h [ ])
any-AnyInterleaves (s ∷ ss) = AnyInterleaves-cons s ss (any-AnyInterleaves ss)

-- A tag looks like a commit hash exactly when one of its words, as split at `-`, `_`, `.`, `/` and
-- `+`, has a digit, then a letter as the next letter or digit, and then another digit.
pub sha_like_iff : (tag : Text) → (sha_like tag ≡ true) ↔ AnyInterleaves (fields is_tag_sep tag)
unfolding sha_like
sha_like_iff tag = any-AnyInterleaves (fields is_tag_sep tag)
