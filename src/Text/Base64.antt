-- ===== src/Text/Base64.antt =====
-- `base64.StdEncoding`, on the bytes of a text.
use yk_update_checker.Prelude.{
  ℕ, Option, All, ◌∷◌, ◌<◌, ◌==◌, if◌then◌else◌, some, ◌*◌, none, ltb, ◌≡◌, ◌+◌, leb, arith, false,
  ◌-◌, [], ◌&&◌, ap, refl, ap₂,
}
use Prim.Native.Nat.{◌/◌, ◌%◌}
use yk_update_checker.Text.{Text}

-- The character of six bits.
unfoldable pub sextet : ℕ → ℕ
sextet n =
    if ltb n 26
    then n + b'A'
    else if ltb n 52
    then n - 26 + b'a'
    else if ltb n 62
    then n - 52 + b'0'
    else if n == 62
    then b'+'
    else b'/'

unfoldable pub base64 : Text → Text
unfolding sextet
base64 [] = []
base64 (a ∷ []) = sextet (a / 4) ∷ sextet (a % 4 * 16) ∷ b'=' ∷ b'=' ∷ []
base64 (a ∷ b ∷ []) =
    sextet (a / 4) ∷ sextet (a % 4 * 16 + b / 16) ∷ sextet (b % 16 * 4) ∷ b'=' ∷ []
base64 (a ∷ b ∷ c ∷ s) =
    sextet (a / 4)
    ∷ sextet (a % 4 * 16 + b / 16)
    ∷ sextet (b % 16 * 4 + c / 64)
    ∷ sextet (c % 64)
    ∷ base64 s

-- A decoder that is written without regard to the encoder.
bits_of : ℕ → Option ℕ
bits_of c =
    if leb b'A' c && leb c b'Z'
    then some (c - b'A')
    else if leb b'a' c && leb c b'z'
    then some (c - b'a' + 26)
    else if leb b'0' c && leb c b'9'
    then some (c - b'0' + 52)
    else if c == b'+'
    then some 62
    else if c == b'/'
    then some 63
    else none

three : Option ℕ → Option ℕ → Option ℕ → Option ℕ → Option Text → Option Text
three (some p) (some q) (some r) (some t) (some s) =
    some ((p * 4 + q / 16) ∷ (q % 16 * 16 + r / 4) ∷ (r % 4 * 64 + t) ∷ s)
three _ _ _ _ _ = none

two : Option ℕ → Option ℕ → Option ℕ → Option Text
two (some p) (some q) (some r) = some ((p * 4 + q / 16) ∷ (q % 16 * 16 + r / 4) ∷ [])
two _ _ _ = none

one : Option ℕ → Option ℕ → Option Text
one (some p) (some q) = some ((p * 4 + q / 16) ∷ [])
one _ _ = none

unfoldable pub decode64 : Text → Option Text
unfolding bits_of one two three
decode64 [] = some []
decode64 (p ∷ q ∷ r ∷ t ∷ s) =
    let rest = decode64 s in
    if t == b'='
    then (if r == b'='
        then one (bits_of p) (bits_of q)
        else two (bits_of p) (bits_of q) (bits_of r))
    else three (bits_of p) (bits_of q) (bits_of r) (bits_of t) rest
decode64 _ = none

bits_of-sextet : (n : ℕ) → n < 64 → bits_of (sextet n) ≡ some n
unfolding bits_of sextet
bits_of-sextet n h = ground arith

sextet-ne : (n : ℕ) → (sextet n == b'=') ≡ false
unfolding sextet
sextet-ne n = ground arith

-- Whatever bytes are encoded are decoded again.
pub decode64-base64 : (s : Text) → All (λ c. c < 256) s → decode64 (base64 s) ≡ some s
unfolding decode64 base64 one two three
decode64-base64 [] h = refl
decode64-base64 (a ∷ []) (p, h) =
    rw (bits_of-sextet (a / 4) (omega arith), bits_of-sextet (a % 4 * 16) (omega arith))
      (ap (λ x. some (x ∷ [])) (omega arith))
decode64-base64 (a ∷ b ∷ []) (p, (q, h)) =
    rw
      (
        sextet-ne (b % 16 * 4),
        bits_of-sextet (a / 4) (omega arith),
        bits_of-sextet (a % 4 * 16 + b / 16) (omega arith),
        bits_of-sextet (b % 16 * 4) (omega arith),
      )
      (ap₂ (λ x y. some (x ∷ y ∷ [])) (omega arith) (omega arith))
decode64-base64 (a ∷ b ∷ c ∷ s) (p, (q, (r, h))) =
    rw
      (
        sextet-ne (c % 64),
        bits_of-sextet (a / 4) (omega arith),
        bits_of-sextet (a % 4 * 16 + b / 16) (omega arith),
        bits_of-sextet (b % 16 * 4 + c / 64) (omega arith),
        bits_of-sextet (c % 64) (omega arith),
        decode64-base64 s h,
      )
      (triple (omega arith) (omega arith) (omega arith))
  where
    triple :
        {x x' y y' z z' : ℕ}
        → x ≡ x'
        → y ≡ y'
        → z ≡ z'
        → some (x ∷ y ∷ z ∷ s) ≡ some (x' ∷ y' ∷ z' ∷ s)
    triple e f g = cc
