-- ===== src/Registry/Tag.antt =====
-- internal/registry/imagetag.go: the classification of an image tag.
pub mod Sha
pub mod Decompose
use yk_update_checker.Prelude.{
  ℕ, ◌+◌, Bool, true, false, not, ◌&&◌, ◌||◌, List, [], ◌∷◌, ◌++◌, map, reverse, Option, none, some,
  leb, ◌==◌, if◌then◌else◌, any, length, take, ◌≡◌, refl,
}
use yk_update_checker.Text.{
  Text, codes, text_eq, contains, is_digit, is_letter, is_space, to_lower, span, trim, fields,
  split, atoi, is_nil,
}

pub data TagKind : Type 0 where
  semver calver date build floating opaque unknown : TagKind

unfoldable pub kind_eq : TagKind → TagKind → Bool
kind_eq semver semver = true
kind_eq calver calver = true
kind_eq date date = true
kind_eq build build = true
kind_eq floating floating = true
kind_eq opaque opaque = true
kind_eq unknown unknown = true
kind_eq _ _ = false

-- `core` is empty where the tag carries no version.
pub record TagShape : Type 0 where
  pub raw : Text
  pub kind : TagKind
  pub pre : Text
  pub core : List ℕ
  pub post : Text

-- `comparable`: the shape carries a version.
abbrev pub has_core : List ℕ → Bool
has_core [] = false
has_core (_ ∷ _) = true

abbrev pub floating_tags : List Text
floating_tags =
    codes "latest"
    ∷ codes "edge"
    ∷ codes "main"
    ∷ codes "master"
    ∷ codes "trunk"
    ∷ codes "head"
    ∷ codes "release"
    ∷ codes "stable"
    ∷ codes "stable-lts"
    ∷ codes "lts"
    ∷ codes "current"
    ∷ codes "nightly"
    ∷ codes "dev"
    ∷ codes "development"
    ∷ codes "canary"
    ∷ codes "next"
    ∷ codes "preview"
    ∷ codes "snapshot"
    ∷ codes "prod"
    ∷ codes "production"
    ∷ codes "live"
    ∷ codes "sts"
    ∷ []

unfoldable pub is_floating : Text → Bool
unfolding contains to_lower
is_floating tag = contains floating_tags (to_lower tag)

abbrev pub is_tag_sep : ℕ → Bool
is_tag_sep c = c == b'-' || c == b'_' || c == b'.' || c == b'/' || c == b'+'

-- The local variables of the loop over one word in `shaLike`.
pub record WordScan : Type 0 where
  pub saw_digit : Bool
  pub letter_after_digit : Bool
  pub digit_after_letter : Bool
  pub prev_digit : Bool

abbrev pub fresh_word : WordScan
fresh_word = record {
  saw_digit = false;
  letter_after_digit = false;
  digit_after_letter = false;
  prev_digit = false;
}

unfoldable pub scan_rune : WordScan → ℕ → WordScan
scan_rune w c =
    if is_digit c
    then record {
      saw_digit = true;
      letter_after_digit = w.letter_after_digit;
      digit_after_letter = w.letter_after_digit || w.digit_after_letter;
      prev_digit = true;
    }
    else if is_letter c
    then record w { letter_after_digit = w.prev_digit || w.letter_after_digit; prev_digit = false }
    else w

-- One word of the loop: it returns from inside, at the first rune where both flags are up.
unfoldable pub scan_word : WordScan → Text → Bool
unfolding scan_rune
scan_word w [] = false
scan_word w (c ∷ s) =
    let w' = scan_rune w c in
    let rest = scan_word w' s in if w'.saw_digit && w'.digit_after_letter then true else rest

unfoldable pub sha_like : Text → Bool
unfolding fields scan_word
sha_like tag = any (scan_word fresh_word) (fields is_tag_sep tag)

-- `\d+(?:\.\d+)*` at a digit, with what follows the longest match.
starts_digit : Text → Bool
starts_digit [] = false
starts_digit (c ∷ _) = is_digit c

unfoldable pub dotted : Text → Text × Text
unfolding starts_digit
dotted [] = ([], [])
dotted (c ∷ s) =
    let (run, rest) = dotted s in
    if is_digit c || (c == b'.' && starts_digit s) then (c ∷ run, rest) else ([], c ∷ s)

abbrev pub has_code : ℕ → Text → Bool
has_code c s = any (λ d. d == c) s

abbrev not_digit : ℕ → Bool
not_digit c = not (is_digit c)

-- The three submatches of a pattern: before the version, the version, after it. `.` stops at a
-- newline, and `[^\d]` and `\D` do not.
pub record Match : Type 0 where
  pub before : Text
  pub digits : Text
  pub after : Text

unfoldable pub form_multi : Text → Option Match
unfolding span dotted
form_multi tag =
    let (pre, rest) = span not_digit tag in
    let (run, post) = dotted rest in
    if has_code b'.' run && not (has_code b'\n' post)
    then some (record { before = pre; digits = run; after = post })
    else none

unfoldable pub form_single : Text → Option Match
unfolding span
form_single tag =
    let (pre, rest) = span not_digit tag in
    let (run, post) = span is_digit rest in
    if not (is_nil run) && not (any is_digit post)
    then some (record { before = pre; digits = run; after = post })
    else none

-- `^(.*\D)?(\d+)(\D*)$`, read from the end. All of the first group but its last rune is `.*`.
newline_before_last : Text → Bool
newline_before_last [] = false
newline_before_last (_ ∷ s) = has_code b'\n' s

unfoldable pub form_last : Text → Option Match
unfolding span newline_before_last
form_last tag =
    let (post, rest) = span not_digit (reverse tag) in
    let (run, pre) = span is_digit rest in
    if not (is_nil run) && not (newline_before_last pre)
    then some (record { before = reverse pre; digits = reverse run; after = reverse post })
    else none

year_of : Option ℕ → Bool
year_of none = false
year_of (some n) = leb 1900 n && leb n 2999

unfoldable pub in_year_range : Text → Bool
unfolding atoi year_of
in_year_range s = year_of (atoi s)

kind_of_groups : List Text → TagKind
unfolding in_year_range
kind_of_groups [] = semver
kind_of_groups (g ∷ []) = if length g == 8 && in_year_range (take 4 g) then date else semver
kind_of_groups (g ∷ _ ∷ _) = if in_year_range g then calver else semver

unfoldable pub numeric_kind : Text → TagKind
unfolding split kind_of_groups
numeric_kind digits = kind_of_groups (split b'.' digits)

-- The loop of `parseIntGroups`: one number out of range empties the whole core.
cons_group : Option ℕ → Option (List ℕ) → Option (List ℕ)
cons_group (some n) (some ns) = some (n ∷ ns)
cons_group _ _ = none

parse_groups : List Text → Option (List ℕ)
unfolding atoi cons_group
parse_groups [] = some []
parse_groups (p ∷ ps) = cons_group (atoi p) (parse_groups ps)

groups_or_nil : Option (List ℕ) → List ℕ
groups_or_nil none = []
groups_or_nil (some ns) = ns

unfoldable pub parse_int_groups : Text → List ℕ
unfolding split parse_groups groups_or_nil
parse_int_groups s = groups_or_nil (parse_groups (split b'.' s))

abbrev pub bare : Text → TagKind → TagShape
bare tag kind = record { raw = tag; kind = kind; pre = []; core = []; post = [] }

abbrev pub shape_of : Text → TagKind → Match → TagShape
shape_of tag kind m = record {
  raw = tag;
  kind = kind;
  pre = m.before;
  core = parse_int_groups m.digits;
  post = m.after;
}

-- `if m := form.FindStringSubmatch(tag); m != nil`
unfoldable pub first_match : Text → (Match → TagKind) → Option Match → TagShape → TagShape
first_match tag kind (some m) rest = shape_of tag (kind m) m
first_match tag kind none rest = rest

-- The three patterns in turn.
unfoldable pub match_forms : Text → TagShape
unfolding first_match
match_forms tag =
    first_match tag (λ m. numeric_kind m.digits) (form_multi tag)
      (first_match tag (λ m. numeric_kind m.digits) (form_single tag)
        (first_match tag (λ _. build) (form_last tag) (bare tag opaque)))

classify_trimmed : Text → TagShape
unfolding is_floating match_forms
classify_trimmed tag =
    if is_nil tag
    then bare tag unknown
    else if is_floating tag
    then bare tag floating
    else if sha_like tag
    then bare tag opaque
    else match_forms tag

-- `classifyTag`
unfoldable pub classify_tag : Text → TagShape
unfolding span classify_trimmed
classify_tag tag = classify_trimmed (trim is_space tag)

-- `TagKindOf`
abbrev pub tag_kind_of : Text → TagKind
tag_kind_of tag = (classify_tag tag).kind

run_all : Unit {0}
unfolding classify_tag sha_like form_multi form_single form_last numeric_kind parse_int_groups
run_all = tt

classify_multi : classify_tag (codes " v1.12.1-alpine3 ") ≡ record {
  raw = codes "v1.12.1-alpine3";
  kind = semver;
  pre = codes "v";
  core = 1 ∷ 12 ∷ 1 ∷ [];
  post = codes "-alpine3";
}
unfolding run_all
classify_multi = refl

classify_kinds :
    map tag_kind_of (
      codes "2026.10.3"
      ∷ codes "20260927"
      ∷ codes "202506"
      ∷ codes "server-cuda12-b10689"
      ∷ codes "Latest"
      ∷ codes "477ac13"
      ∷ codes "bookworm"
      ∷ codes ""
      ∷ [])
    ≡ calver ∷ date ∷ semver ∷ build ∷ floating ∷ opaque ∷ opaque ∷ unknown ∷ []
unfolding run_all
classify_kinds = refl
