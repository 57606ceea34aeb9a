-- ===== src/Registry/Tag/Decompose.antt =====
-- The submatches of the three patterns, put together again, are the tag.
use mathlib.Core.List.{append_assoc, reverse-append, reverse-reverse, reverse, ◌∷◌}
use yk_update_checker.Prelude.{
  ◌≡⟨◌⟩◌, ◌∎, ◌≡◌, ◌++◌, ap, some, reverse, arith, ◌∙◌, [], ◌≢◌, refl, inr, inl, Option, Bool-cases,
  none,
}
use yk_update_checker.Text.{Text, is_digit, span, span-append}
use yk_update_checker.Registry.Tag.{
  TagShape, Match, dotted, form_multi, form_single, form_last, parse_int_groups, not_digit,
  match_forms, TagKind, shape_of, classify_trimmed, first_match, opaque, classify_tag, bare, trim,
  is_space, unknown, is_floating, floating, sha_like, is_nil,
}

dotted-append : (s : Text) → (dotted s).0 ++ (dotted s).1 ≡ s
unfolding dotted
dotted-append [] = refl
dotted-append (c ∷ s) = ground (arith, dotted-append s)

abbrev Whole : Text → Match → Type 0
Whole tag m = m.before ++ (m.digits ++ m.after) ≡ tag

-- The two splits of the first and the second pattern.
split_twice :
    (tag pre rest run post : Text)
    → pre ++ rest ≡ tag
    → run ++ post ≡ rest
    → pre ++ (run ++ post) ≡ tag
split_twice tag pre rest run post p q = ap (λ r. pre ++ r) q ∙ p

form_multi-append : (tag : Text) (m : Match) → form_multi tag ≡ some m → Whole tag m
unfolding form_multi
form_multi-append tag m e =
    let (pre, rest) = span not_digit tag in
    let (run, post) = dotted rest in
    ground
      (arith, split_twice tag pre rest run post (span-append not_digit tag) (dotted-append rest))

form_single-append : (tag : Text) (m : Match) → form_single tag ≡ some m → Whole tag m
unfolding form_single
form_single-append tag m e =
    let (pre, rest) = span not_digit tag in
    let (run, post) = span is_digit rest in
    ground (
      arith,
      split_twice tag pre rest run post (span-append not_digit tag) (span-append is_digit rest),
    )

reverse_split :
    (tag post rest run pre : Text)
    → post ++ rest ≡ reverse tag
    → run ++ pre ≡ rest
    → reverse pre ++ (reverse run ++ reverse post) ≡ tag
reverse_split tag post rest run pre p q =
    reverse pre ++ (reverse run ++ reverse post)
    ≡⟨ (simp (reverse-append, append_assoc)) ⟩ reverse (post ++ (run ++ pre))
    ≡⟨ ap reverse (ap (λ r. post ++ r) q ∙ p) ⟩ reverse (reverse tag)
    ≡⟨ reverse-reverse tag ⟩ tag ∎

form_last-append : (tag : Text) (m : Match) → form_last tag ≡ some m → Whole tag m
unfolding form_last
form_last-append tag m e =
    let (post, rest) = span not_digit (reverse tag) in
    let (run, pre) = span is_digit rest in
    ground (
      arith,
      reverse_split tag post rest run pre (span-append not_digit (reverse tag))
          (span-append is_digit rest),
    )

-- The shape holds a version that the tag spells between `pre` and `post`.
pub record Spells (sh : TagShape) : Type 0 where
  pub digits : Text
  pub whole : sh.pre ++ (digits ++ sh.post) ≡ sh.raw
  pub groups : parse_int_groups digits ≡ sh.core

Spells-shape :
    (tag : Text) (kind : TagKind) (m : Match) → Whole tag m → Spells (shape_of tag kind m)
Spells-shape tag kind m w = record { digits = m.digits; whole = w; groups = refl }

abbrev SpellsIfAny : TagShape → Type 0
SpellsIfAny sh = sh.core ≢ [] → Spells sh

first_match-Spells :
    (tag : Text) (kind : Match → TagKind) (o : Option Match) {rest : TagShape}
    → ((m : Match) → o ≡ some m → Whole tag m)
    → SpellsIfAny rest
    → SpellsIfAny (first_match tag kind o rest)
unfolding first_match
first_match-Spells tag kind none w h = h
first_match-Spells tag kind (some m) w h = λ _. Spells-shape tag (kind m) m (w m refl)

bare-Spells : (tag : Text) (kind : TagKind) → SpellsIfAny (bare tag kind)
bare-Spells tag kind h = absurd (h refl)

match_forms-Spells : (tag : Text) → SpellsIfAny (match_forms tag)
unfolding match_forms
match_forms-Spells tag = first_match-Spells tag _ (form_multi tag) (form_multi-append tag) (
    first_match-Spells tag _ (form_single tag) (form_single-append tag)
      (first_match-Spells tag _ (form_last tag) (form_last-append tag) (bare-Spells tag opaque)))

classify_trimmed-Spells : (tag : Text) → SpellsIfAny (classify_trimmed tag)
unfolding classify_trimmed
classify_trimmed-Spells tag = elim (Bool-cases (is_nil tag)) [
  | inl e ↦ rw e (bare-Spells tag unknown)
  | inr e ↦ rw e (elim (Bool-cases (is_floating tag)) [
    | inl f ↦ rw f (bare-Spells tag floating)
    | inr f ↦ rw f (elim (Bool-cases (sha_like tag)) [
      | inl g ↦ rw g (bare-Spells tag opaque)
      | inr g ↦ rw g (match_forms-Spells tag)
    ])
  ])
]

-- The raw text of a shape with a version is the text before the version, the text of the version and
-- the text after it, and the version's numbers are read from that middle text.
pub classify_tag-Spells : (tag : Text) → (classify_tag tag).core ≢ [] → Spells (classify_tag tag)
unfolding classify_tag
classify_tag-Spells tag = classify_trimmed-Spells (trim is_space tag)
