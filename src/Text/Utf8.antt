-- ===== src/Text/Utf8.antt =====
-- Go's UTF-8 functions that the program uses, over the bytes of a text: `utf8.RuneStart`,
-- `utf8.DecodeRuneInString` as far as the width goes, and `strings.ToValidUTF8`.
use yk_update_checker.Prelude.{
  ℕ, zero, suc, Bool, true, false, ◌&&◌, ◌||◌, ltb, leb, ◌==◌, if◌then◌else◌, [], ◌∷◌, ◌++◌, ◌≡◌,
  refl, arith, take, inl, inr, not, &&_iff, Bool-cases, ◌<◌, ◌⊎◌,
}
use yk_update_checker.Text.{Text}
use yk_update_checker.Text.Cut.{has_code}

abbrev continues : ℕ → Bool
continues c = leb 0x80 c && leb c 0xbf

-- `utf8.RuneStart`
abbrev rune_start : ℕ → Bool
rune_start c = not (continues c)

-- The bytes that a first byte announces.
unfoldable pub extra : ℕ → ℕ
extra c = if ltb c 0x80 then 0 else if ltb c 0xe0 then 1 else if ltb c 0xf0 then 2 else 3

abbrev leads : ℕ → Bool
leads c = ltb c 0x80 || (leb 0xc2 c && leb c 0xf4)

-- The second byte, whose range four first bytes narrow.
abbrev lowest : ℕ → ℕ
lowest c = if c == 0xe0 then 0xa0 else if c == 0xf0 then 0x90 else 0x80

abbrev highest : ℕ → ℕ
highest c = if c == 0xed then 0x9f else if c == 0xf4 then 0x8f else 0xbf

unfoldable pub second : ℕ → Text → Bool
second c [] = ltb c 0x80
second c (d ∷ s) = ltb c 0x80 || (leb (lowest c) d && leb d (highest c))

unfoldable pub conts : ℕ → Text → Bool
conts zero s = true
conts (suc k) [] = false
conts (suc k) (c ∷ s) = continues c && conts k s

-- A character stands in front: its first byte, and the rest of it at the head of the text.
unfoldable pub rune_ok : ℕ → Text → Bool
rune_ok c s = leads c && conts (extra c) s && second c s

-- "\uFFFD"
abbrev replacement : Text → Text
replacement s = 0xef ∷ 0xbf ∷ 0xbd ∷ s

-- The flag says that the byte before was replaced, the number how many bytes of a character follow.
valid_from : Bool → ℕ → Text → Text
valid_from bad k [] = []
valid_from bad (suc k) (c ∷ s) = c ∷ valid_from false k s
valid_from bad zero (c ∷ s) =
    let good = c ∷ valid_from false (extra c) s in
    let rest = valid_from true zero s in
    if rune_ok c s then good else if bad then rest else replacement rest

-- `strings.ToValidUTF8(s, "\uFFFD")`
unfoldable pub to_valid_utf8 : Text → Text
unfolding valid_from
to_valid_utf8 s = valid_from false 0 s

-- `utf8.RuneStart(s[n])`; false where the text has no byte there
unfoldable pub starts_at : ℕ → Text → Bool
starts_at n [] = false
starts_at zero (c ∷ s) = rune_start c
starts_at (suc n) (c ∷ s) = starts_at n s

-- The text is a sequence of whole characters, after so many bytes of one that has begun.
utf8_from : ℕ → Text → Bool
utf8_from zero [] = true
utf8_from (suc k) [] = false
utf8_from (suc k) (c ∷ s) = continues c && utf8_from k s
utf8_from zero (c ∷ s) = rune_ok c s && utf8_from (extra c) s

unfoldable pub is_utf8 : Text → Bool
unfolding utf8_from
is_utf8 s = utf8_from 0 s

conts-valid_from :
    (bad : Bool) (k : ℕ) (s : Text) → conts k s ≡ true → conts k (valid_from bad k s) ≡ true
unfolding conts valid_from
conts-valid_from bad zero s h = refl
conts-valid_from bad (suc k) [] h = h
conts-valid_from bad (suc k) (c ∷ s) h = ground (arith, conts-valid_from false k s)

second-valid_from :
    (c k : ℕ) (s : Text)
    → (ltb c 0x80 ≡ true) ⊎ ((d : ℕ) × (k ≡ suc d))
    → second c s ≡ true
    → second c (valid_from false k s) ≡ true
unfolding second valid_from
second-valid_from c k [] e h = h
second-valid_from c k (d ∷ s) (inl e) h = ground arith
second-valid_from c k (d ∷ s) (inr (j, e)) h = rw e h

extra-suc : (c : ℕ) → (ltb c 0x80 ≡ true) ⊎ ((d : ℕ) × (extra c ≡ suc d))
unfolding extra
extra-suc c = elim (Bool-cases (ltb c 0x80)) [
  | inl h ↦ inl h
  | inr h ↦ rw h (
      inr (elim (Bool-cases (ltb c 0xe0)) [
        | inl k ↦ rw k (0, refl)
        | inr k ↦
            rw k
              (elim (Bool-cases (ltb c 0xf0)) [ inl l ↦ rw l (1, refl) | inr l ↦ rw l (2, refl) ])
      ]))
]

rune_ok-valid_from :
    (c : ℕ) (s : Text) → rune_ok c s ≡ true → rune_ok c (valid_from false (extra c) s) ≡ true
unfolding rune_ok
rune_ok-valid_from c s h =
    ground
      (arith, conts-valid_from false (extra c) s, second-valid_from c (extra c) s (extra-suc c))

rune_ok-conts : (c : ℕ) (s : Text) → rune_ok c s ≡ true → conts (extra c) s ≡ true
unfolding rune_ok
rune_ok-conts c s h = ground arith

utf8_from-replacement : (s : Text) → utf8_from 0 s ≡ true → utf8_from 0 (replacement s) ≡ true
unfolding utf8_from rune_ok conts second extra
utf8_from-replacement s h = h

utf8_from-valid_from :
    (bad : Bool) (k : ℕ) (s : Text) → conts k s ≡ true → utf8_from k (valid_from bad k s) ≡ true
unfolding conts valid_from utf8_from
utf8_from-valid_from bad zero [] h = refl
utf8_from-valid_from bad (suc k) [] h = h
utf8_from-valid_from bad (suc k) (c ∷ s) h = ground (arith, utf8_from-valid_from false k s)
utf8_from-valid_from bad zero (c ∷ s) h = elim (Bool-cases (rune_ok c s)) [
  | inl h ↦ rw h (
      (&&_iff (rune_ok c _) _).1
        (rune_ok-valid_from c s h, utf8_from-valid_from false (extra c) s (rune_ok-conts c s h)))
  | inr h ↦ rw h (
      let rest = utf8_from-valid_from true 0 s refl in
      elim bad
        as (λ b.
          utf8_from 0 (if b then valid_from true 0 s else replacement (valid_from true 0 s))
          ≡ true) [ true ↦ rest | false ↦ utf8_from-replacement (valid_from true 0 s) rest ])
]

-- Cutting where a character begins leaves whole characters.
conts-take :
    (n k : ℕ) (s : Text) → starts_at n s ≡ true → conts k s ≡ true → conts k (take n s) ≡ true
unfolding conts starts_at
conts-take n zero s h c = refl
conts-take n (suc k) [] h c = absurd (cc h)
conts-take zero (suc k) (d ∷ s) h c = ground arith
conts-take (suc n) (suc k) (d ∷ s) h c = ground (arith, conts-take n k s)

utf8_from-conts : (k : ℕ) (s : Text) → utf8_from k s ≡ true → conts k s ≡ true
unfolding conts utf8_from
utf8_from-conts zero s h = refl
utf8_from-conts (suc k) [] h = h
utf8_from-conts (suc k) (c ∷ s) h =
    let (p, q) = (&&_iff (continues c) _).0 h in (&&_iff _ _).1 (p, utf8_from-conts k s q)

second-take :
    (c n : ℕ) (s : Text)
    → conts (extra c) (take n s) ≡ true
    → second c s ≡ true
    → second c (take n s) ≡ true
unfolding conts second extra
second-take c n [] k h = ground arith
second-take c zero (d ∷ s) k h = ground arith
second-take c (suc n) (d ∷ s) k h = h

rune_ok-take :
    (c n : ℕ) (s : Text) → starts_at n s ≡ true → rune_ok c s ≡ true → rune_ok c (take n s) ≡ true
unfolding rune_ok
rune_ok-take c n s h r = ground (arith, conts-take n (extra c) s h, second-take c n s)

utf8_from-take :
    (n k : ℕ) (s : Text)
    → starts_at n s ≡ true
    → utf8_from k s ≡ true
    → utf8_from k (take n s) ≡ true
unfolding starts_at utf8_from
utf8_from-take n k [] h u = absurd (cc h)
utf8_from-take zero zero (d ∷ s) h u = refl
utf8_from-take zero (suc k) (d ∷ s) h u = ground arith
utf8_from-take (suc n) zero (d ∷ s) h u =
    let (p, q) = (&&_iff (rune_ok d s) _).0 u in
    (&&_iff _ _).1 (rune_ok-take d n s h p, utf8_from-take n (extra d) s h q)
utf8_from-take (suc n) (suc k) (d ∷ s) h u =
    let (p, q) = (&&_iff (continues d) _).0 u in (&&_iff _ _).1 (p, utf8_from-take n k s h q)

second-append : (c : ℕ) (s t : Text) → second c s ≡ true → second c (s ++ t) ≡ true
unfolding second
second-append c [] [] h = h
second-append c [] (d ∷ t) h = ground arith
second-append c (d ∷ s) t h = h

conts-append : (k : ℕ) (s t : Text) → conts k s ≡ true → conts k (s ++ t) ≡ true
unfolding conts
conts-append zero s t h = refl
conts-append (suc k) [] t h = absurd (cc h)
conts-append (suc k) (c ∷ s) t h = ground (arith, conts-append k s t)

rune_ok-append : (c : ℕ) (s t : Text) → rune_ok c s ≡ true → rune_ok c (s ++ t) ≡ true
unfolding rune_ok
rune_ok-append c s t h = ground (arith, conts-append (extra c) s t, second-append c s t)

rune_ok-lt : (c : ℕ) (s : Text) → rune_ok c s ≡ true → c < 0xff
unfolding rune_ok
rune_ok-lt c s h = ground arith

utf8_from-append :
    (k : ℕ) (s t : Text) → utf8_from k s ≡ true → utf8_from 0 t ≡ true → utf8_from k (s ++ t) ≡ true
unfolding utf8_from
utf8_from-append zero [] t h u = u
utf8_from-append (suc k) [] t h u = absurd (cc h)
utf8_from-append zero (c ∷ s) t h u =
    let (p, q) = (&&_iff (rune_ok c s) _).0 h in
    (&&_iff _ _).1 (rune_ok-append c s t p, utf8_from-append (extra c) s t q u)
utf8_from-append (suc k) (c ∷ s) t h u =
    let (p, q) = (&&_iff (continues c) _).0 h in (&&_iff _ _).1 (p, utf8_from-append k s t q u)

utf8_from-clean : (k : ℕ) (s : Text) → utf8_from k s ≡ true → has_code 0xff s ≡ false
unfolding utf8_from
utf8_from-clean k [] h = refl
utf8_from-clean zero (c ∷ s) h =
    let (p, q) = (&&_iff (rune_ok c s) _).0 h in
    ground (arith, rune_ok-lt c s p, utf8_from-clean (extra c) s q)
utf8_from-clean (suc k) (c ∷ s) h =
    let (p, q) = (&&_iff (continues c) _).0 h in ground (arith, utf8_from-clean k s q)

-- The function's result is whole characters.
pub to_valid_utf8-is_utf8 : (s : Text) → is_utf8 (to_valid_utf8 s) ≡ true
unfolding is_utf8 to_valid_utf8 conts
to_valid_utf8-is_utf8 s = utf8_from-valid_from false 0 s refl

pub is_utf8-take :
    (n : ℕ) (s : Text) → starts_at n s ≡ true → is_utf8 s ≡ true → is_utf8 (take n s) ≡ true
unfolding is_utf8
is_utf8-take n s h u = utf8_from-take n 0 s h u

pub is_utf8-append : (s t : Text) → is_utf8 s ≡ true → is_utf8 t ≡ true → is_utf8 (s ++ t) ≡ true
unfolding is_utf8
is_utf8-append s t h u = utf8_from-append 0 s t h u

pub is_utf8-clean : (s : Text) → is_utf8 s ≡ true → has_code 0xff s ≡ false
unfolding is_utf8
is_utf8-clean s h = utf8_from-clean 0 s h

pub is_utf8-nil : is_utf8 [] ≡ true
unfolding is_utf8 utf8_from
is_utf8-nil = refl

pub is_utf8-ellipsis : is_utf8 (0xe2 ∷ 0x80 ∷ 0xa6 ∷ []) ≡ true
unfolding is_utf8 utf8_from rune_ok conts second extra
is_utf8-ellipsis = refl
