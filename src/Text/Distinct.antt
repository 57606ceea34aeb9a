-- ===== src/Text/Distinct.antt =====
-- Lists with no text twice.
use yk_update_checker.Prelude.{List, ◌≡◌, ◌++◌, ◌∷◌, false, [], arith, ◌||◌, refl}
use yk_update_checker.Text.{Text, contains, text_eq, text_eq_iff}

-- No text stands twice in the list.
abbrev pub IsDistinct : List Text → Type 0
IsDistinct [] = Unit
IsDistinct (x ∷ xs) = (contains xs x ≡ false) × IsDistinct xs

pub contains-append :
    (xs : List Text) (t u : Text) → contains (xs ++ t ∷ []) u ≡ (contains xs u || text_eq u t)
unfolding contains
contains-append [] t u = ground arith
contains-append (x ∷ xs) t u = ground (arith, contains-append xs t u)

pub IsDistinct-append :
    (xs : List Text) (t : Text) → IsDistinct xs → contains xs t ≡ false → IsDistinct (xs ++ t ∷ [])
unfolding contains
IsDistinct-append [] t d h = (refl, tt)
IsDistinct-append (x ∷ xs) t (n, d) h = (
  ground (arith, contains-append xs t x, text_eq_iff x t, text_eq_iff t x),
  IsDistinct-append xs t d (ground arith),
)
