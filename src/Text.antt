-- ===== src/Text.antt =====
-- Go's `strings` functions that the program uses, over the code points of a text. The texts here
-- (tags, repository URLs, names) are ASCII, so a code point is a byte; folding case and trimming
-- white space are those of the ASCII range.
pub mod Cut
pub mod Decimal
pub mod Distinct
pub mod Lines
pub mod Utf8
pub mod Joined
pub mod Base64
use Prim.Native.Char.{code}
use Prim.Native.String.{String}
use yk_update_checker.Prelude.{
  Bool-cases, inl, inr, ltb, ◌-◌, ◌*◌, ◌+◌, ℕ, ◌+◌, ◌≡◌, refl, ap, ◌↔◌, Bool, true, false, ◌&&◌,
  ◌||◌, List, [], ◌∷◌, ◌++◌, reverse, arith, leb, ◌==◌, if◌then◌else◌, any, Option, none, some, ◌⊎◌,
}

abbrev pub Text : Type 0
Text = List ℕ

abbrev pub is_nil : Text → Bool
is_nil [] = true
is_nil (_ ∷ _) = false

-- The code points of a literal. `String` has its own `[]` and `∷`.
abbrev pub codes : String → Text
codes String.[] = []
codes (String.◌∷◌ c s) = code c ∷ codes s

-- `==` on strings
unfoldable pub text_eq : Text → Text → Bool
text_eq [] [] = true
text_eq (x ∷ xs) (y ∷ ys) = x == y && text_eq xs ys
text_eq _ _ = false

pub text_eq_iff : (s t : Text) → (text_eq s t ≡ true) ↔ (s ≡ t)
unfolding text_eq
text_eq_iff (x ∷ s) (y ∷ t) = ground (arith, text_eq_iff s t)
text_eq_iff _ _ = ground arith

pub text_eq_refl : (s : Text) → text_eq s s ≡ true
text_eq_refl s = (text_eq_iff s s).1 refl

-- `slices.Contains`, and the look-up in a `map[string]bool`
unfoldable pub contains : List Text → Text → Bool
unfolding text_eq
contains xs s = any (text_eq s) xs

pub contains_three_iff :
    (a b c s : Text) → (contains (a ∷ b ∷ c ∷ []) s ≡ true) ↔ ((s ≡ a) ⊎ (s ≡ b) ⊎ (s ≡ c))
unfolding contains
contains_three_iff a b c s = (
  λ h. elim (Bool-cases (text_eq s a)) [
    | inl e ↦ inl ((text_eq_iff s a).0 e)
    | inr e ↦ elim (Bool-cases (text_eq s b)) [
      | inl f ↦ inr (inl ((text_eq_iff s b).0 f))
      | inr f ↦ inr (inr ((text_eq_iff s c).0 (ground arith)))
    ]
  ],
  λ t. elim t [
    | inl e ↦ ground (arith, (text_eq_iff s a).1 e)
    | inr u ↦ elim u [
      | inl e ↦ ground (arith, (text_eq_iff s b).1 e)
      | inr e ↦ ground (arith, (text_eq_iff s c).1 e)
    ]
  ],
)

-- `strings.HasPrefix`
unfoldable pub has_prefix : Text → Text → Bool
has_prefix s [] = true
has_prefix [] (p ∷ ps) = false
has_prefix (c ∷ s) (p ∷ ps) = c == p && has_prefix s ps

-- `strings.Contains`
unfoldable pub has_infix : Text → Text → Bool
unfolding has_prefix
has_infix [] t = has_prefix [] t
has_infix (c ∷ s) t = has_prefix (c ∷ s) t || has_infix s t

abbrev pub is_digit : ℕ → Bool
is_digit c = leb b'0' c && leb c b'9'

abbrev pub is_lower : ℕ → Bool
is_lower c = leb b'a' c && leb c b'z'

abbrev pub is_upper : ℕ → Bool
is_upper c = leb b'A' c && leb c b'Z'

abbrev pub is_letter : ℕ → Bool
is_letter c = is_lower c || is_upper c

-- the white space that `strings.TrimSpace` cuts
abbrev pub is_space : ℕ → Bool
is_space c = c == b' ' || (leb 9 c && leb c 13)

-- `strings.ToLower`
unfoldable pub to_lower : Text → Text
to_lower [] = []
to_lower (c ∷ s) = (if is_upper c then c + 32 else c) ∷ to_lower s

-- The longest prefix whose code points pass the test, and what follows it.
unfoldable pub span : (ℕ → Bool) → Text → Text × Text
span p [] = ([], [])
span p (c ∷ s) = let (s₁, s₂) = span p s in if p c then (c ∷ s₁, s₂) else ([], c ∷ s)

-- `strings.TrimLeft` with a set of code points, `strings.TrimRight`, `strings.Trim`
abbrev pub trim_left : (ℕ → Bool) → Text → Text
trim_left p s = (span p s).1

abbrev pub trim_right : (ℕ → Bool) → Text → Text
trim_right p s = reverse (trim_left p (reverse s))

abbrev pub trim : (ℕ → Bool) → Text → Text
trim p s = trim_right p (trim_left p s)

-- `strings.FieldsFunc`: the maximal runs free of separators, none of them empty
flush : Text → List Text → List Text
flush [] words = words
flush (c ∷ s) words = (c ∷ s) ∷ words

fields_from : (ℕ → Bool) → Text → Text → List Text
fields_from sep word [] = flush word []
fields_from sep word (c ∷ s) =
    let ended = flush word (fields_from sep [] s) in
    let longer = fields_from sep (word ++ c ∷ []) s in if sep c then ended else longer

unfoldable pub fields : (ℕ → Bool) → Text → List Text
unfolding flush fields_from
fields sep s = fields_from sep [] s

-- `strings.Split` at one code point
unfoldable pub split_from : ℕ → Text → Text → List Text
split_from sep part [] = part ∷ []
split_from sep part (c ∷ s) =
    let ended = part ∷ split_from sep [] s in
    let longer = split_from sep (part ++ c ∷ []) s in if c == sep then ended else longer

unfoldable pub split : ℕ → Text → List Text
unfolding split_from
split sep s = split_from sep [] s

-- `strings.Join`
abbrev pub join : Text → List Text → Text
join sep [] = []
join sep (s ∷ []) = s
join sep (s ∷ t ∷ ts) = s ++ sep ++ join sep (t ∷ ts)

-- The value of decimal digits, most significant first; `none` at anything else.
unfoldable pub digits_value : ℕ → Text → Option ℕ
digits_value n [] = some n
digits_value n (c ∷ s) =
    let rest = digits_value (10 * n + (c - b'0')) s in if is_digit c then rest else none

-- The bound of a Go `int` on 64 bits.
abbrev pub int_limit : ℕ
int_limit = 0x8000000000000000

-- `strconv.Atoi` on a text with no sign; an empty text, another character or a value out of range
-- is an error.
unfoldable pub atoi : Text → Option ℕ
unfolding digits_value
atoi [] = none
atoi (c ∷ s) = elim (digits_value 0 (c ∷ s)) [
  | none ↦ none
  | some n ↦ if ltb n int_limit then some n else none
]

split_test : split b'.' (codes "1.24..3") ≡ codes "1" ∷ codes "24" ∷ [] ∷ codes "3" ∷ []
unfolding split
split_test = refl

fields_test : fields (λ c. c == b'-') (codes "-a--bc-") ≡ codes "a" ∷ codes "bc" ∷ []
unfolding fields
fields_test = refl

trim_test : trim is_space (codes " a b ") ≡ codes "a b"
unfolding span
trim_test = refl

atoi_test : atoi (codes "20261003") ≡ some 20261003
unfolding atoi
atoi_test = refl

atoi_overflow : atoi (codes "9223372036854775808") ≡ none
unfolding atoi
atoi_overflow = refl

pub span-append : (p : ℕ → Bool) (s : Text) → (span p s).0 ++ (span p s).1 ≡ s
unfolding span
span-append p [] = refl
span-append p (c ∷ s) = elim (Bool-cases (p c)) [
  | inl h ↦ rw h (ap (◌∷◌ c) (span-append p s))
  | inr h ↦ rw h refl
]
