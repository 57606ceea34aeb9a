-- ===== src/Prelude/Lists.antt =====
-- Lists measured by native numbers, predicates on lists by recursion, and membership tests.
use Prim.Native.Nat.{ℕ, zero, suc, ◌≤◌, ◌+◌}
use mathlib.Core.Path.{◌≡◌, refl, ap}
use mathlib.Core.Logic.{◌↔◌, ◌⊎◌, inl, inr}
use mathlib.Core.Bool.{Bool, true, false, ◌&&◌, ◌||◌}
use mathlib.Core.List.{List, [], ◌∷◌, ◌++◌, Memᴰ, map}
use native.Mathlib.Omega.{arith}
use yk_update_checker.Prelude.Tests.{if◌then◌else◌, Bool-cases}

module _ {ℓ} {A : Type ℓ} where
  abbrev pub length : List A → ℕ
  length [] = 0
  length (x ∷ xs) = suc (length xs)

  abbrev pub take : ℕ → List A → List A
  take zero xs = []
  take (suc n) [] = []
  take (suc n) (x ∷ xs) = x ∷ take n xs

  pub length-take-le : (n : ℕ) (xs : List A) → length (take n xs) ≤ n
  length-take-le zero xs = omega arith
  length-take-le (suc n) [] = omega arith
  length-take-le (suc n) (x ∷ xs) = omega (arith, length-take-le n xs)

  pub length-append : (xs ys : List A) → length (xs ++ ys) ≡ length xs + length ys
  length-append [] ys = omega arith
  length-append (x ∷ xs) ys = omega (arith, length-append xs ys)

  -- The elements that pass a Boolean test, in order.
  abbrev pub keep : (A → Bool) → List A → List A
  keep p [] = []
  keep p (x ∷ xs) = if p x then x ∷ keep p xs else keep p xs

  -- The conjunction of a Boolean test over a list, and its disjunction.
  abbrev pub all : (A → Bool) → List A → Bool
  all p [] = true
  all p (x ∷ xs) = p x && all p xs

  abbrev pub any : (A → Bool) → List A → Bool
  any p [] = false
  any p (x ∷ xs) = p x || any p xs

module _ {ℓ κ} {A : Type ℓ} where
  abbrev pub All : (A → Type κ) → List A → Type κ
  All P [] = Unit
  All P (x ∷ xs) = P x × All P xs

module _ {ℓ κ} {A : Type ℓ} (P : A → Type κ) where
  pub All-append : (xs ys : List A) → All P xs → All P ys → All P (xs ++ ys)
  All-append [] ys h k = k
  All-append (x ∷ xs) ys (p, h) k = (p, All-append xs ys h k)

  pub All-mem : {a : A} {xs : List A} → Memᴰ a xs → All P xs → P a
  All-mem (Memᴰ.head e) (p, h) = rw e p
  All-mem (Memᴰ.tail m) (p, h) = All-mem m h

module _ {ℓ} {A : Type ℓ} (p : A → Bool) where
  mem-keep_cons :
      {a : A} (x : A) (xs : List A)
      → Memᴰ a (keep p (x ∷ xs)) ↔ (((a ≡ x) × (p x ≡ true)) ⊎ Memᴰ a (keep p xs))
  mem-keep_cons x xs = elim (Bool-cases (p x)) [
    | inl h ↦ rw h (
      λ m. elim m [ Memᴰ.head e ↦ inl (e, refl) | Memᴰ.tail m ↦ inr m ],
      λ c. elim c [ inl d ↦ Memᴰ.head d.0 | inr m ↦ Memᴰ.tail m ],
    )
    | inr h ↦ rw h (λ m. inr m, λ c. elim c [ inl d ↦ absurd (cc (d.1)) | inr m ↦ m ])
  ]

  pub mem_of_keep : {a : A} (xs : List A) → Memᴰ a (keep p xs) → Memᴰ a xs × (p a ≡ true)
  mem_of_keep [] m = elim m [ ]
  mem_of_keep (x ∷ xs) m = elim ((mem-keep_cons x xs).0 m) [
    | inl h ↦ (Memᴰ.head h.0, rw h.0 h.1)
    | inr k ↦ (Memᴰ.tail (mem_of_keep xs k).0, (mem_of_keep xs k).1)
  ]

  pub keep_of_mem : {a : A} {xs : List A} → Memᴰ a xs → p a ≡ true → Memᴰ a (keep p xs)
  keep_of_mem (Memᴰ.head {x} {xs} e) h = (mem-keep_cons x xs).1 (inl (e, rw (← e) h))
  keep_of_mem (Memᴰ.tail {x} {xs} m) h = (mem-keep_cons x xs).1 (inr (keep_of_mem m h))

module _ {ℓ} {A : Type ℓ} where
  pub mem-append_left : {a : A} {xs : List A} (ys : List A) → Memᴰ a xs → Memᴰ a (xs ++ ys)
  mem-append_left ys (Memᴰ.head e) = Memᴰ.head e
  mem-append_left ys (Memᴰ.tail m) = Memᴰ.tail (mem-append_left ys m)

  pub mem-append_right : {a : A} (xs : List A) {ys : List A} → Memᴰ a ys → Memᴰ a (xs ++ ys)
  mem-append_right [] m = m
  mem-append_right (x ∷ xs) m = Memᴰ.tail (mem-append_right xs m)

  pub mem-append : {a : A} (xs ys : List A) → Memᴰ a (xs ++ ys) → Memᴰ a xs ⊎ Memᴰ a ys
  mem-append [] ys m = inr m
  mem-append (x ∷ xs) ys (Memᴰ.head e) = inl (Memᴰ.head e)
  mem-append (x ∷ xs) ys (Memᴰ.tail m) = elim (mem-append xs ys m) [
    | inl k ↦ inl (Memᴰ.tail k)
    | inr k ↦ inr k
  ]

module _ {ℓ κ} {A : Type ℓ} {B : Type κ} (f : A → B) where
  pub mem-map : {a : A} {xs : List A} → Memᴰ a xs → Memᴰ (f a) (map f xs)
  mem-map (Memᴰ.head e) = Memᴰ.head (ap f e)
  mem-map (Memᴰ.tail m) = Memᴰ.tail (mem-map m)

  pub mem_of_map : {b : B} (xs : List A) → Memᴰ b (map f xs) → (a : A) × Memᴰ a xs × (b ≡ f a)
  mem_of_map [] m = elim m [ ]
  mem_of_map (x ∷ xs) (Memᴰ.head e) = (x, Memᴰ.head refl, e)
  mem_of_map (x ∷ xs) (Memᴰ.tail m) = let (a, k, e) = mem_of_map xs m in (a, Memᴰ.tail k, e)
