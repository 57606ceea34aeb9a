-- ===== src/Registry/Vendor/Escape.antt =====
-- Escaped paths: what a server decodes, and how many parts it sees.
use Prim.Native.Nat.{◌/◌, ◌%◌}
use yk_update_checker.Prelude.{
  none, some, inl, inr, true, false, [], ℕ, All, Option, ◌≡◌, ◌==◌, ◌∷◌, ◌<◌, if◌then◌else◌, ◌*◌,
  arith, refl, ◌+◌, leb, Bool-cases, ◌&&◌, ap, ◌-◌, List, map, ◌++◌,
}
use yk_update_checker.Text.{Text, split, split_from}
use yk_update_checker.Text.Cut.{has_code}
use yk_update_checker.Text.Joined.{split-join, IsClean}
use yk_update_checker.Registry.Vendor.Path.{
  hex_digit, is_segment_code, path_escape, esc_path, harbor_repo_path,
}

hex_value : ℕ → Option ℕ
hex_value c =
    if leb b'0' c && leb c b'9'
    then some (c - b'0')
    else if leb b'A' c && leb c b'F'
    then some (c - b'A' + 10)
    else none

decode_pair : Option ℕ → Option ℕ → Option Text → Option Text
decode_pair (some a) (some b) (some s) = some ((a * 16 + b) ∷ s)
decode_pair _ _ _ = none

put : ℕ → Option Text → Option Text
put c none = none
put c (some s) = some (c ∷ s)

-- Percent decoding; `none` at a percent sign without two hexadecimal digits.
unfoldable pub percent_decode : Text → Option Text
unfolding hex_value decode_pair put
percent_decode [] = some []
percent_decode (c ∷ []) = if c == b'%' then none else some (c ∷ [])
percent_decode (c ∷ d ∷ []) = if c == b'%' then none else put c (percent_decode (d ∷ []))
percent_decode (c ∷ d ∷ e ∷ s) =
    let pair = decode_pair (hex_value d) (hex_value e) (percent_decode s) in
    let rest = put c (percent_decode (d ∷ e ∷ s)) in if c == b'%' then pair else rest

hex_value-hex_digit : (n : ℕ) → n < 16 → hex_value (hex_digit n) ≡ some n
unfolding hex_value
hex_value-hex_digit n h = ground arith

percent_decode-cons :
    (c : ℕ) (s : Text) → (c == b'%') ≡ false → percent_decode (c ∷ s) ≡ put c (percent_decode s)
unfolding percent_decode put
percent_decode-cons c [] h = rw h refl
percent_decode-cons c (d ∷ []) h = rw h refl
percent_decode-cons c (d ∷ e ∷ s) h = rw h refl

segment_code-ne : (c : ℕ) → is_segment_code c ≡ true → ((c == b'%') ≡ false) × ((c == b'/') ≡ false)
unfolding is_segment_code
segment_code-ne c h = (ground (arith, h), ground (arith, h))

pub percent_decode-path_escape :
    (s : Text) → All (λ c. c < 256) s → percent_decode (path_escape s) ≡ some s
unfolding percent_decode path_escape decode_pair put
percent_decode-path_escape [] h = refl
percent_decode-path_escape (c ∷ s) (p, h) = elim (Bool-cases (is_segment_code c)) [
  | inl e ↦
      rw
        (
          e,
          percent_decode-cons c (path_escape s) (segment_code-ne c e).0,
          percent_decode-path_escape s h,
        )
        refl
  | inr e ↦
      rw
        (
          e,
          hex_value-hex_digit (c / 16) (omega arith),
          hex_value-hex_digit (c % 16) (omega arith),
          percent_decode-path_escape s h,
        )
        (ap (λ d. some (d ∷ s)) (omega arith))
]

-- An escaped text is of bytes, and has no slash.
path_escape-bytes : (s : Text) → All (λ c. c < 256) s → All (λ c. c < 256) (path_escape s)
unfolding path_escape
path_escape-bytes [] h = tt
path_escape-bytes (c ∷ s) (p, h) = elim (Bool-cases (is_segment_code c)) [
  | inl e ↦ rw e (p, path_escape-bytes s h)
  | inr e ↦ rw e (omega arith, (ground arith, (ground arith, path_escape-bytes s h)))
]

hex_digit-ne : (n : ℕ) → (hex_digit n == b'/') ≡ false
hex_digit-ne n = ground arith

path_escape-no_slash : (s : Text) → has_code b'/' (path_escape s) ≡ false
unfolding path_escape
path_escape-no_slash [] = refl
path_escape-no_slash (c ∷ s) = elim (Bool-cases (is_segment_code c)) [
  | inl e ↦ rw (e, (segment_code-ne c e).1) (path_escape-no_slash s)
  | inr e ↦ rw (e, hex_digit-ne (c / 16), hex_digit-ne (c % 16)) (path_escape-no_slash s)
]

-- A server that decodes the name twice, as Harbor does, gets it back, and sees one part.
harbor_repo_path-decoded :
    (repo : Text)
    → All (λ c. c < 256) repo
    → (once : Text) × (percent_decode (harbor_repo_path repo) ≡ some once)
      × (percent_decode once ≡ some repo)
      × (has_code b'/' (harbor_repo_path repo) ≡ false)
unfolding harbor_repo_path
harbor_repo_path-decoded repo h = (
  path_escape repo,
  percent_decode-path_escape (path_escape repo) (path_escape-bytes repo h),
  percent_decode-path_escape repo h,
  path_escape-no_slash (path_escape repo),
)

map-IsClean : (parts : List Text) → IsClean b'/' (map path_escape parts)
map-IsClean [] = tt
map-IsClean (p ∷ parts) = (path_escape-no_slash p, map-IsClean parts)

split-cons :
    (b : ℕ) (part s : Text) → (p : Text) × (ps : List Text) × (split_from b part s ≡ p ∷ ps)
unfolding split_from
split-cons b part [] = (part, [], refl)
split-cons b part (c ∷ s) = elim (Bool-cases (c == b)) [
  | inl e ↦ rw e (part, split_from b [] s, refl)
  | inr e ↦ rw e (split-cons b (part ++ c ∷ []) s)
]

-- A path keeps its parts: between the slashes of what is sent stand the escaped parts, no more.
esc_path-split : (path : Text) → split b'/' (esc_path path) ≡ map path_escape (split b'/' path)
unfolding esc_path split
esc_path-split path =
    let (p, ps, e) = split-cons b'/' [] path in
    rw e (split-join b'/' (path_escape p) (map path_escape ps) (map-IsClean (p ∷ ps)))
