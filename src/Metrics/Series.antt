-- ===== src/Metrics/Series.antt =====
-- The label values of each family of series, in the order sent, and why a set of keys keeps them
-- apart.
use mathlib.Core.Path.{subst}
use yk_update_checker.Prelude.{
  Bool, List, ℕ, ◌++◌, Memᴰ, All, ◌∷◌, ◌≡◌, map, ◌==◌, [], false, true, Bool-cases, if◌then◌else◌,
  refl, ap, All-append, inl, arith, inr, sym, ==_iff, ◌∙◌,
}
use mathlib.Core.List.{map-append, append-nil}
use yk_update_checker.Text.{Text, contains, text_eq, text_eq_iff, text_eq_refl}
use yk_update_checker.Text.Distinct.{IsDistinct, IsDistinct-append, contains-append}
use yk_update_checker.Metrics.{
  gauge, Desc, Metric, outdated, scanned, drift, failed, skipped, last_scan, repo_fail,
}

abbrev number : Desc → ℕ
number outdated = 0
number scanned = 1
number drift = 2
number failed = 3
number skipped = 4
number last_scan = 5
number repo_fail = 6

abbrev pub same : Desc → Desc → Bool
same d e = number d == number e

pub same_refl : (d : Desc) → same d d ≡ true
same_refl d = (==_iff (number d) (number d)).1 refl

unfoldable pub series : Desc → List Metric → List (List Text)
series d [] = []
series d (m ∷ ms) = if same d m.desc then m.labels ∷ series d ms else series d ms

pub series-append :
    (d : Desc) (ms ns : List Metric) → series d (ms ++ ns) ≡ series d ms ++ series d ns
unfolding series
series-append d [] ns = refl
series-append d (m ∷ ms) ns = elim (Bool-cases (same d m.desc)) [
  | inl e ↦ rw e (ap (λ ls. m.labels ∷ ls) (series-append d ms ns))
  | inr e ↦ rw e (series-append d ms ns)
]

-- No element stands twice in the list.
abbrev pub NoRepeat {ℓ} : {A : Type ℓ} → List A → Type ℓ
NoRepeat [] = Unit
NoRepeat (x ∷ xs) = (¬ Memᴰ x xs) × NoRepeat xs

-- Every list's key is in the set, and no two have the same one.
abbrev pub Covered : (List Text → Text) → List Text → List (List Text) → Type 0
Covered f seen ls = All (λ l. contains seen (f l) ≡ true) ls × IsDistinct (map f ls)

module _ (f : List Text → Text) where
  contains-key :
      {l : List Text} {ls : List (List Text)} → Memᴰ l ls → contains (map f ls) (f l) ≡ true
  unfolding contains
  contains-key {l} (Memᴰ.head {x} {xs} e) = rw (ap f e, text_eq_refl (f x)) refl
  contains-key {l} (Memᴰ.tail {x} {xs} m) = ground (arith, contains-key m)

  pub IsDistinct-NoRepeat : (ls : List (List Text)) → IsDistinct (map f ls) → NoRepeat ls
  IsDistinct-NoRepeat [] d = tt
  IsDistinct-NoRepeat (l ∷ ls) (h, d) = (λ m. cc (h, contains-key m), IsDistinct-NoRepeat ls d)

  All-skip :
      (seen : List Text) (k : Text) (ls : List (List Text))
      → All (λ l. contains seen (f l) ≡ true) ls
      → All (λ l. contains (seen ++ k ∷ []) (f l) ≡ true) ls
  All-skip seen k [] h = tt
  All-skip seen k (l ∷ ls) (p, h) =
      (rw (contains-append seen k (f l), p) refl, All-skip seen k ls h)

  -- A set that grows still covers.
  pub Covered-skip :
      (seen : List Text) (k : Text) (ls : List (List Text))
      → Covered f seen ls
      → Covered f (seen ++ k ∷ []) ls
  Covered-skip seen k ls (h, d) = (All-skip seen k ls h, d)

  contains-map :
      (seen : List Text) (k : Text) (ls : List (List Text))
      → All (λ l. contains seen (f l) ≡ true) ls
      → contains seen k ≡ false
      → contains (map f ls) k ≡ false
  unfolding contains
  contains-map seen k [] h n = refl
  contains-map seen k (l ∷ ls) (p, h) n = elim (Bool-cases (text_eq k (f l))) [
    | inl e ↦ let same_key : k ≡ f l = (text_eq_iff k (f l)).0 e in absurd (cc (same_key, p, n))
    | inr e ↦ rw e (contains-map seen k ls h n)
  ]

  -- One more, whose key is new.
  pub Covered-add :
      (seen : List Text) (l : List Text) (ls : List (List Text))
      → Covered f seen ls
      → contains seen (f l) ≡ false
      → Covered f (seen ++ f l ∷ []) (ls ++ l ∷ [])
  Covered-add seen l ls (h, d) n = (
    All-append _ ls (l ∷ []) (All-skip seen (f l) ls h)
        (rw (contains-append seen (f l) (f l), text_eq_refl (f l)) (ground arith), tt),
    subst IsDistinct (sym (map-append f ls (l ∷ [])))
        (IsDistinct-append (map f ls) (f l) d (contains-map seen (f l) ls h n)),
  )

pub series-other :
    (d e : Desc) (out : List Metric) (n : ℕ) (ls : List Text)
    → same d e ≡ false
    → series d (out ++ gauge e n ls ∷ []) ≡ series d out
unfolding series
series-other d e out n ls h =
    series-append d out (gauge e n ls ∷ []) ∙ rw h (append-nil (series d out))

pub series-own :
    (d : Desc) (out : List Metric) (n : ℕ) (ls : List Text)
    → series d (out ++ gauge d n ls ∷ []) ≡ series d out ++ ls ∷ []
unfolding series
series-own d out n ls = series-append d out (gauge d n ls ∷ []) ∙ rw (same_refl d) refl

module _ (f : List Text → Text) where
  -- A series of another family changes nothing.
  pub Covered-other :
      (d e : Desc) (seen : List Text) (out : List Metric) (n : ℕ) (ls : List Text)
      → same d e ≡ false
      → Covered f seen (series d out)
      → Covered f seen (series d (out ++ gauge e n ls ∷ []))
  Covered-other d e seen out n ls h c = subst (Covered f seen) (sym (series-other d e out n ls h)) c

  -- A series whose key is new, which enters the set.
  pub Covered-own :
      (d : Desc) (seen : List Text) (out : List Metric) (n : ℕ) (ls : List Text)
      → contains seen (f ls) ≡ false
      → Covered f seen (series d out)
      → Covered f (seen ++ f ls ∷ []) (series d (out ++ gauge d n ls ∷ []))
  Covered-own d seen out n ls h c =
      subst (Covered f (seen ++ f ls ∷ [])) (sym (series-own d out n ls))
        (Covered-add f seen ls (series d out) c h)

-- What is sent is in its family.
pub mem-series : {m : Metric} {ms : List Metric} → Memᴰ m ms → Memᴰ m.labels (series m.desc ms)
unfolding series
mem-series {m} (Memᴰ.head {x} {xs} e) = rw (e, same_refl x.desc) (Memᴰ.head refl)
mem-series {m} (Memᴰ.tail {x} {xs} k) = elim (Bool-cases (same m.desc x.desc)) [
  | inl e ↦ rw e (Memᴰ.tail (mem-series k))
  | inr e ↦ rw e (mem-series k)
]
