-- ===== src/Named.antt =====
-- Objects stored under their names: look-up, replacement and removal in a list. Names are compared
-- as texts.
use yk_update_checker.Prelude.{
  List, Option, ◌∷◌, ◌≡◌, none, if◌then◌else◌, arith, some, [], refl, Bool-cases, inl, ap, sym, ◌∙◌,
  inr,
}
use yk_update_checker.Text.{Text, text_eq, text_eq_iff}

some_inj {ℓ} : {A : Type ℓ} (a b : A) → some a ≡ some b → a ≡ b
some_inj a b h = cc

module _ {ℓ} {A : Type ℓ} (name : A → Text) where
  unfoldable pub find : Text → List A → Option A
  unfolding text_eq
  find n [] = none
  find n (a ∷ l) = if text_eq (name a) n then some a else find n l

  -- The object replaces the one of its name, or comes last.
  unfoldable pub put : A → List A → List A
  unfolding text_eq
  put a [] = a ∷ []
  put a (b ∷ l) = if text_eq (name b) (name a) then a ∷ l else b ∷ put a l

  unfoldable pub remove : Text → List A → List A
  unfolding text_eq
  remove n [] = []
  remove n (a ∷ l) = if text_eq (name a) n then remove n l else a ∷ remove n l

  pub find-put :
      (n : Text) (a : A) (l : List A)
      → find n (put a l) ≡ (if text_eq (name a) n then some a else find n l)
  unfolding find put
  find-put n a [] = refl
  find-put n a (b ∷ l) = ground (
    arith,
    text_eq_iff (name b) (name a),
    text_eq_iff (name a) n,
    text_eq_iff (name b) n,
    find-put n a l,
  )

  pub find-remove :
      (n m : Text) (l : List A) → find n (remove m l) ≡ (if text_eq m n then none else find n l)
  unfolding find remove
  find-remove n m [] = ground arith
  find-remove n m (b ∷ l) =
      ground
        (arith, text_eq_iff (name b) m, text_eq_iff m n, text_eq_iff (name b) n, find-remove n m l)

  pub find-name : (n : Text) (l : List A) {a : A} → find n l ≡ some a → name a ≡ n
  unfolding find
  find-name n [] h = absurd (cc h)
  find-name n (b ∷ l) {a} h = elim (Bool-cases (text_eq (name b) n)) [
    | inl e ↦ ap name (sym (some_inj (b) a (rw e at h))) ∙ (text_eq_iff (name b) n).0 e
    | inr e ↦ find-name n l (rw e at h)
  ]
