-- ===== src/Metrics/Label.antt =====
-- internal/metrics/collector.go: label values, `bound` and `kindLabel`.
use yk_update_checker.Registry.Tag.{has_code}
use yk_update_checker.Prelude.{
  ◌≡◌, ℕ, if◌then◌else◌, ◌∷◌, true, suc, ◌≤◌, any, [], leb, length, take, zero, arith, ◌++◌,
  Bool-cases, false, inl, inr, length-append, length-take-le,
}
use yk_update_checker.Text.{Text, text_eq}
use yk_update_checker.Errkind.{kind_name, all_kinds, other}
use yk_update_checker.Text.Utf8.{
  to_valid_utf8, starts_at, is_utf8, to_valid_utf8-is_utf8, is_utf8-nil, is_utf8-take,
  is_utf8-clean, is_utf8-append, is_utf8-ellipsis,
}

-- `maxLabelLen`
abbrev pub max_label_len : ℕ
max_label_len = 200

-- The loop that moves `cut` down to where a character begins.
unfoldable pub cut_down : Text → ℕ → ℕ
cut_down s zero = 0
cut_down s (suc n) = let lower = cut_down s n in if starts_at (suc n) s then suc n else lower

-- "…"
abbrev ellipsis : Text
ellipsis = 0xe2 ∷ 0x80 ∷ 0xa6 ∷ []

shorten : Text → Text
shorten s =
    if leb (length s) max_label_len then s else take (cut_down s max_label_len) s ++ ellipsis

unfoldable pub bound : Text → Text
unfolding shorten
bound s = shorten (to_valid_utf8 s)

-- A report is cluster input: its kind may be any text.
unfoldable pub kind_label : Text → Text
kind_label t = if any (λ k. text_eq (kind_name k) t) all_kinds then t else kind_name other

cut_down-le : (s : Text) (n : ℕ) → cut_down s n ≤ n
unfolding cut_down
cut_down-le s zero = omega arith
cut_down-le s (suc n) = ground (arith, cut_down-le s n)

is_utf8-cut_down : (s : Text) (n : ℕ) → is_utf8 s ≡ true → is_utf8 (take (cut_down s n) s) ≡ true
unfolding cut_down
is_utf8-cut_down s zero h = is_utf8-nil
is_utf8-cut_down s (suc n) h = elim (Bool-cases (starts_at (suc n) s)) [
  | inl e ↦ rw e (is_utf8-take (suc n) s e h)
  | inr e ↦ rw e (is_utf8-cut_down s n h)
]

shorten-lem :
    (s : Text) → is_utf8 s ≡ true → (is_utf8 (shorten s) ≡ true) × (length (shorten s) ≤ 203)
unfolding shorten
shorten-lem s h = elim (Bool-cases (leb (length s) 200)) [
  | inl e ↦ rw e (h, ground arith)
  | inr e ↦ rw e (
    is_utf8-append _ _ (is_utf8-cut_down s 200 h) is_utf8-ellipsis,
    omega (
      arith,
      length-append {0} (take (cut_down s 200) s) (0xe2 ∷ 0x80 ∷ 0xa6 ∷ []),
      length-take-le {0} (cut_down s 200) s,
      cut_down-le s 200,
    ),
  )
]

-- A label value is whole characters of UTF-8, at most 203 bytes of them.
pub bound-is_utf8 : (s : Text) → (is_utf8 (bound s) ≡ true) × (length (bound s) ≤ 203)
unfolding bound
bound-is_utf8 s = shorten-lem (to_valid_utf8 s) (to_valid_utf8-is_utf8 s)

pub bound-clean : (s : Text) → has_code 0xff (bound s) ≡ false
bound-clean s = is_utf8-clean (bound s) (bound-is_utf8 s).0
