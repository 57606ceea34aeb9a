-- ===== src/Text/Decimal.antt =====
-- `strconv.Itoa` on numbers that are not negative.
use yk_update_checker.Prelude.{
  ℕ, suc, ◌<◌, ◌≡◌, some, arith, ◌+◌, [], ◌∷◌, Bool-cases, if◌then◌else◌, ltb, ◌*◌, zero, inl, ap,
  inr, ◌∙◌, true, false, refl,
}
use Prim.Native.Nat.{◌/◌, ◌%◌}
use yk_update_checker.Text.{Text, digits_value, is_digit}
use yk_update_checker.Text.Cut.{has_code}

-- The digits in front of those there are. A number has at most as many digits as it counts.
decimal_from : ℕ → ℕ → Text → Text
decimal_from zero n digits = digits
decimal_from (suc fuel) n digits =
    let longer = (n % 10 + b'0') ∷ digits in
    let rest = decimal_from fuel (n / 10) longer in if ltb n 10 then longer else rest

unfoldable pub itoa : ℕ → Text
unfolding decimal_from
itoa n = decimal_from (suc n) n []

is_digit-code : (d : ℕ) → d < 10 → is_digit (d + b'0') ≡ true
is_digit-code d h = ground arith

digits_value-digit :
    (n d : ℕ) (s : Text) → d < 10 → digits_value n ((d + b'0') ∷ s) ≡ digits_value (10 * n + d) s
unfolding digits_value
digits_value-digit n d s h =
    rw (is_digit-code d h) (ap (λ k. digits_value (10 * n + k) s) (omega arith))

digits_value-decimal :
    (fuel n : ℕ) (s : Text) → n < fuel → digits_value 0 (decimal_from fuel n s) ≡ digits_value n s
unfolding decimal_from
digits_value-decimal zero n s h = absurd (omega arith)
digits_value-decimal (suc fuel) n s h = elim (Bool-cases (ltb n 10)) [
  | inl e ↦
      rw (e, digits_value-digit 0 (n % 10) s (omega arith))
        (ap (λ k. digits_value k s) (ground arith))
  | inr e ↦ rw e (
      digits_value-decimal fuel (n / 10) ((n % 10 + b'0') ∷ s) (ground arith)
      ∙ digits_value-digit (n / 10) (n % 10) s (omega arith)
      ∙ ap (λ k. digits_value k s) (omega arith))
]

-- The digits printed for a number have its value.
pub digits_value-itoa : (n : ℕ) → digits_value 0 (itoa n) ≡ some n
unfolding itoa digits_value
digits_value-itoa n = digits_value-decimal (suc n) n [] (omega arith)

has_code-decimal : (fuel n : ℕ) (s : Text) → has_code b'=' (decimal_from fuel n s) ≡ has_code b'=' s
unfolding decimal_from
has_code-decimal zero n s = refl
has_code-decimal (suc fuel) n s = elim (Bool-cases (ltb n 10)) [
  | inl e ↦ rw e (digit_eq n s)
  | inr e ↦ rw e (has_code-decimal fuel (n / 10) ((n % 10 + b'0') ∷ s) ∙ digit_eq n s)
]
  where
    digit_eq : (d : ℕ) (s : Text) → has_code b'=' ((d % 10 + b'0') ∷ s) ≡ has_code b'=' s
    digit_eq d s = ground arith

-- There is no equals sign in a number.
pub has_code-itoa : (n : ℕ) → has_code b'=' (itoa n) ≡ false
unfolding itoa
has_code-itoa n = has_code-decimal (suc n) n []
