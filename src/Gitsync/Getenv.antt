-- ===== src/Gitsync/Getenv.antt =====
-- How git reads its environment: variables, and the configuration that is passed in them. The last
-- of two entries with one name counts, as `os/exec` keeps that one.
use mathlib.Core.Path.{subst}
use mathlib.Core.List.{append_assoc}
use yk_update_checker.Prelude.{
  none, some, inl, inr, ℕ, Option, List, ◌≡◌, ◌∷◌, refl, ◌≤◌, [], sym, ◌≢◌, if◌then◌else◌, false,
  ◌++◌, suc, Bool-cases, ◌∙◌, arith, zero, ap, length,
}
use yk_update_checker.Errkind.{or_else}
use yk_update_checker.Text.{Text, codes, text_eq, text_eq_iff, text_eq_refl, digits_value}
use yk_update_checker.Text.Cut.{cut, cut-append, has_code}
use yk_update_checker.Text.Decimal.{itoa, digits_value-itoa, has_code-itoa}
use yk_update_checker.Gitsync.Env.{config_pairs}

unfoldable pub value_of : Text → Text × Option Text → Option Text
value_of name (n, none) = none
value_of name (n, some v) = if text_eq n name then some v else none

unfoldable pub getenv : Text → List Text → Option Text
unfolding value_of
getenv name [] = none
getenv name (entry ∷ env) = or_else (getenv name env) (value_of name (cut b'=' entry))

abbrev pub key_name : ℕ → Text
key_name i = codes "GIT_CONFIG_KEY_" ++ itoa i

abbrev pub value_name : ℕ → Text
value_name i = codes "GIT_CONFIG_VALUE_" ++ itoa i

abbrev pub add_pair :
    Option Text → Option Text → Option (List (Text × Text)) → Option (List (Text × Text))
add_pair (some k) (some v) (some pairs) = some ((k, v) ∷ pairs)
add_pair _ _ _ = none

unfoldable pub read_pairs : List Text → ℕ → ℕ → Option (List (Text × Text))
read_pairs env i zero = some []
read_pairs env i (suc n) =
    add_pair (getenv (key_name i) env) (getenv (value_name i) env) (read_pairs env (suc i) n)

read_count : List Text → Option ℕ → Option (List (Text × Text))
read_count env none = none
read_count env (some n) = read_pairs env 0 n

with_count : List Text → Option Text → Option (List (Text × Text))
unfolding read_count
with_count env none = some []
with_count env (some t) = read_count env (digits_value 0 t)

-- The configuration that git takes from its environment.
unfoldable pub read_config : List Text → Option (List (Text × Text))
unfolding with_count read_pairs
read_config env = with_count env (getenv (codes "GIT_CONFIG_COUNT") env)

pub read_config-count :
    (env : List Text) (t : Text) (n : ℕ)
    → getenv (codes "GIT_CONFIG_COUNT") env ≡ some t
    → digits_value 0 t ≡ some n
    → read_config env ≡ read_pairs env 0 n
unfolding read_config with_count read_count
read_config-count env t n e f = ap (with_count env) e ∙ ap (read_count env) f

or_else_assoc : {A : Type 0} (a b c : Option A) → or_else (or_else a b) c ≡ or_else a (or_else b c)
or_else_assoc none b c = refl
or_else_assoc (some a) b c = refl

pub getenv-append :
    (name : Text) (xs ys : List Text)
    → getenv name (xs ++ ys) ≡ or_else (getenv name ys) (getenv name xs)
unfolding getenv
getenv-append name [] ys = or_else-none (getenv name ys)
  where
    or_else-none : (a : Option Text) → a ≡ or_else a none
    or_else-none none = refl
    or_else-none (some a) = refl
getenv-append name (x ∷ xs) ys =
    rw (getenv-append name xs ys) (or_else_assoc (getenv name ys) (getenv name xs) _)

value_of-entry :
    (name n v : Text)
    → has_code b'=' n ≡ false
    → value_of name (cut b'=' (n ++ b'=' ∷ v)) ≡ (if text_eq n name then some v else none)
unfolding value_of
value_of-entry name n v h = rw (cut-append b'=' n v h) refl

itoa-inj : (i j : ℕ) → itoa i ≡ itoa j → i ≡ j
itoa-inj i j e = some_inj (sym (digits_value-itoa i) ∙ ap (digits_value 0) e ∙ digits_value-itoa j)
  where
    some_inj : {a b : ℕ} → some a ≡ some b → a ≡ b
    some_inj e = cc

text_eq-itoa : (i j : ℕ) → i ≢ j → text_eq (itoa i) (itoa j) ≡ false
text_eq-itoa i j h = elim (Bool-cases (text_eq (itoa i) (itoa j))) [
  | inl e ↦ absurd (h (itoa-inj i j ((text_eq_iff (itoa i) (itoa j)).0 e)))
  | inr e ↦ e
]

names-ne :
    (i j : ℕ)
    → i ≢ j
    → (text_eq (key_name i) (key_name j) ≡ false) × (text_eq (value_name i) (value_name j) ≡ false)
unfolding text_eq
names-ne i j h = (text_eq-itoa i j h, text_eq-itoa i j h)

names-apart :
    (i j : ℕ)
    → (text_eq (key_name i) (value_name j) ≡ false) × (text_eq (value_name i) (key_name j) ≡ false)
unfolding text_eq
names-apart i j = (refl, refl)

-- A variable with another name is not among the pairs.
pub getenv-other :
    (name : Text) (i : ℕ) (pairs : List (Text × Text))
    → ((j : ℕ) → i ≤ j → text_eq (key_name j) name ≡ false)
    → ((j : ℕ) → i ≤ j → text_eq (value_name j) name ≡ false)
    → getenv name (config_pairs i pairs) ≡ none
unfolding getenv config_pairs
getenv-other name i [] h k = refl
getenv-other name i ((key, value) ∷ pairs) h k =
    rw
      (
        getenv-other name (suc i) pairs (λ j l. h j (omega arith)) (λ j l. k j (omega arith)),
        value_of-entry name (value_name i) value (has_code-itoa i),
        k i (omega arith),
        value_of-entry name (key_name i) key (has_code-itoa i),
        h i (omega arith),
      )
      refl

-- What follows the pairs sets none of the variables of the pairs.
abbrev pub IsForeign : List Text → Type 0
IsForeign tail = (j : ℕ) → (getenv (key_name j) tail ≡ none) × (getenv (value_name j) tail ≡ none)

pub getenv-pair :
    (name : Text) (front : List Text) (i : ℕ) (pairs : List (Text × Text)) (tail : List Text)
    → getenv name tail ≡ none
    → getenv name (front ++ (config_pairs i pairs ++ tail))
      ≡ or_else (getenv name (config_pairs i pairs)) (getenv name front)
getenv-pair name front i pairs tail h =
    rw
      (
        getenv-append name front (config_pairs i pairs ++ tail),
        getenv-append name (config_pairs i pairs) tail,
        h,
      )
      refl

getenv-first :
    (i : ℕ) (key value : Text) (pairs : List (Text × Text))
    → (getenv (key_name i) (config_pairs i ((key, value) ∷ pairs)) ≡ some key)
      × (getenv (value_name i) (config_pairs i ((key, value) ∷ pairs)) ≡ some value)
unfolding getenv config_pairs
getenv-first i key value pairs = (
  rw
      (
        getenv-other (key_name i) (suc i) pairs (λ j l. (names-ne j i (λ e. omega (arith, e, l))).0)
            (λ j l. (names-apart j i).1),
        value_of-entry (key_name i) (value_name i) value (has_code-itoa i),
        (names-apart i i).1,
        value_of-entry (key_name i) (key_name i) key (has_code-itoa i),
        text_eq_refl (key_name i),
      )
      refl,
  rw
      (
        getenv-other (value_name i) (suc i) pairs (λ j l. (names-apart j i).0)
            (λ j l. (names-ne j i (λ e. omega (arith, e, l))).1),
        value_of-entry (value_name i) (value_name i) value (has_code-itoa i),
        text_eq_refl (value_name i),
      )
      refl,
)

pub read_pairs-lem :
    (front : List Text) (i : ℕ) (pairs : List (Text × Text)) (tail : List Text)
    → IsForeign tail
    → read_pairs (front ++ (config_pairs i pairs ++ tail)) i (length pairs) ≡ some pairs
unfolding read_pairs config_pairs
read_pairs-lem front i [] tail h = refl
read_pairs-lem front i ((key, value) ∷ pairs) tail h =
    let (k, v) = getenv-first i key value pairs in
    pair_step (getenv-pair (key_name i) front i ((key, value) ∷ pairs) tail (h i).0 ∙ found k _)
      (getenv-pair (value_name i) front i ((key, value) ∷ pairs) tail (h i).1 ∙ found v _)
      (subst (λ env. read_pairs env (suc i) (length pairs) ≡ some pairs)
        (append_assoc front ((key_name i ++ b'=' ∷ key) ∷ (value_name i ++ b'=' ∷ value) ∷ [])
          (config_pairs (suc i) pairs ++ tail))
        (read_pairs-lem (front ++ (key_name i ++ b'=' ∷ key) ∷ (value_name i ++ b'=' ∷ value) ∷ [])
          (suc i) pairs tail h))
  where
    found : {o : Option Text} {t : Text} → o ≡ some t → (p : Option Text) → or_else o p ≡ some t
    found e p = rw e refl

    pair_step :
        {o p : Option Text} {q : Option (List (Text × Text))} {ps : List (Text × Text)} {k v : Text}
        → o ≡ some k
        → p ≡ some v
        → q ≡ some ps
        → add_pair o p q ≡ some ((k, v) ∷ ps)
    pair_step e f g = rw (e, f, g) refl
