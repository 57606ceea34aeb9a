-- ===== src/Metrics/Counts.antt =====
-- The counts of `Collect`: one for each source and type, each the number of results that have them.
use mathlib.Core.Path.{subst}
use yk_update_checker.Prelude.{
  List, ℕ, ◌∷◌, ◌≡◌, map, [], All, ◌++◌, ◌||◌, Bool-cases, if◌then◌else◌, ◌+◌, refl, false, inl,
  arith, inr, ◌∙◌, Memᴰ, not, ap₂, ◌&&◌, ◌<◌, true, ap, sym,
}
use mathlib.Core.List.{append_assoc}
use yk_update_checker.Text.{Text, contains, text_eq, text_eq_iff, text_eq_refl}
use yk_update_checker.Text.Cut.{cut-append, has_code}
use yk_update_checker.Text.Distinct.{IsDistinct}
use yk_update_checker.Report.Types.{ScanResult}
use yk_update_checker.Metrics.Label.{bound, bound-clean}
use yk_update_checker.Metrics.{
  scanned, key, count_up, count_metric, State, collect_result, collect_results, collect_issues,
  collect_drift, collect_update, identity_values, change_values, has_issue,
}
use yk_update_checker.Metrics.Series.{series}

abbrev pub counted : ScanResult → Text
counted r = key (bound r.source ∷ bound r.type_ ∷ [])

abbrev pub keys : List (Text × ℕ) → List Text
keys counts = map (λ (c : Text × ℕ). c.0) counts

-- The number of results with the source and the type, as labels, of a key.
abbrev pub tally : Text → List ScanResult → ℕ
tally k [] = 0
tally k (r ∷ rs) = (if text_eq (counted r) k then 1 else 0) + tally k rs

abbrev pub count_of : Text → List (Text × ℕ) → ℕ
count_of k [] = 0
count_of k ((j, n) ∷ counts) = if text_eq j k then n else count_of k counts

count_of-count_up :
    (k j : Text) (counts : List (Text × ℕ))
    → count_of k (count_up j counts) ≡ count_of k counts + (if text_eq j k then 1 else 0)
unfolding count_up
count_of-count_up k j [] = ground arith
count_of-count_up k j ((i, n) ∷ counts) =
    ground (arith, text_eq_iff i j, text_eq_iff i k, text_eq_iff j k, count_of-count_up k j counts)

-- Two labels and the byte between them.
abbrev pub IsPair : Text → Type 0
IsPair k =
    (a : Text) × (b : Text) × (k ≡ a ++ 0xff ∷ b)
    × (has_code 0xff a ≡ false)
    × (has_code 0xff b ≡ false)

abbrev pub IsCounts : List (Text × ℕ) → Type 0
IsCounts counts = IsDistinct (keys counts) × All IsPair (keys counts)

contains-count_up :
    (k j : Text) (counts : List (Text × ℕ))
    → contains (keys (count_up j counts)) k ≡ (contains (keys counts) k || text_eq k j)
unfolding count_up contains
contains-count_up k j [] = ground arith
contains-count_up k j ((i, n) ∷ counts) =
    ground (arith, text_eq_iff i j, text_eq_iff k i, text_eq_iff k j, contains-count_up k j counts)

count_up-IsCounts :
    (k : Text) (counts : List (Text × ℕ))
    → IsPair k
    → IsCounts counts
    → IsCounts (count_up k counts)
unfolding count_up contains
count_up-IsCounts k [] p h = ((refl, tt), (p, tt))
count_up-IsCounts k ((j, n) ∷ counts) p ((a, d), (q, h)) = elim (Bool-cases (text_eq j k)) [
  | inl e ↦ rw e ((a, d), (q, h))
  | inr e ↦ rw e (
      let (d', h') = count_up-IsCounts k counts p (d, h) in
      ((rw (contains-count_up j k counts, a, e) refl, d'), (q, h')))
]

counted-IsPair : (r : ScanResult) → IsPair (counted r)
counted-IsPair r = (
  bound r.source,
  bound r.type_,
  append_assoc (bound r.source) (0xff ∷ []) (bound r.type_),
  bound-clean r.source,
  bound-clean r.type_,
)

-- The rest of a round leaves the counts alone.
counts-collect_update :
    (r : ScanResult) (ls : List Text) (st : State) → (collect_update r ls st).counts ≡ st.counts
unfolding collect_update
counts-collect_update r ls st = elim (Bool-cases r.update_available) [
  | inl u ↦
      rw u (elim (Bool-cases (contains st.seen (key ls))) [ inl e ↦ rw e refl | inr e ↦ rw e refl ])
  | inr u ↦ rw u refl
]

counts-collect_drift :
    (r : ScanResult) (id : List Text) (st : State) → (collect_drift r id st).counts ≡ st.counts
unfolding collect_drift
counts-collect_drift r id st =
    elim (Bool-cases (r.digest_changed && not (contains st.seen_drift (key id)))) [
      | inl e ↦ rw e refl
      | inr e ↦ rw e refl
    ]

counts-collect_issues :
    (r : ScanResult) (id : List Text) (st : State) → (collect_issues r id st).counts ≡ st.counts
unfolding collect_issues
counts-collect_issues r id st =
    elim (Bool-cases (contains st.seen_ref (key id) || not (has_issue r))) [
      | inl e ↦ rw e refl
      | inr e ↦ rw e refl
    ]

counts-collect_result :
    (r : ScanResult) (st : State) → (collect_result r st).counts ≡ count_up (counted r) st.counts
unfolding collect_result
counts-collect_result r st =
    counts-collect_update r (identity_values r ++ change_values r) _
    ∙ counts-collect_drift r (identity_values r) _
    ∙ counts-collect_issues r (identity_values r) _

pub counts-collect_results :
    (rs : List ScanResult) (st : State)
    → IsCounts st.counts
    → IsCounts (collect_results rs st).counts
      × ((k : Text) → count_of k (collect_results rs st).counts ≡ count_of k st.counts + tally k rs)
unfolding collect_results
counts-collect_results [] st h = (h, λ k. omega arith)
counts-collect_results (r ∷ rs) st h =
    let e = counts-collect_result r st in
    let (i, f) =
      counts-collect_results rs (collect_result r st)
        (rw e (count_up-IsCounts (counted r) st.counts (counted-IsPair r) h)) in
    (i, λ k. f k ∙ rw (e, count_of-count_up k (counted r) st.counts) (omega arith))

-- The labels sent for a key are its two parts.
pub labels-count_metric : (k : Text) (n : ℕ) → IsPair k → key (count_metric (k, n)).labels ≡ k
unfolding count_metric
labels-count_metric k n (a, b, e, c, c') =
    rw e (rw (cut-append 0xff a b c) (append_assoc a (0xff ∷ []) b))

pub keys-series :
    (counts : List (Text × ℕ))
    → All IsPair (keys counts)
    → map key (series scanned (map count_metric counts)) ≡ keys counts
unfolding series count_metric
keys-series [] h = refl
keys-series ((k, n) ∷ counts) (p, h) =
    ap₂ (λ t ts. t ∷ ts) (labels-count_metric k n p) (keys-series counts h)

contains-mem :
    {k : Text} {n : ℕ} {counts : List (Text × ℕ)}
    → Memᴰ (k, n) counts
    → contains (keys counts) k ≡ true
unfolding contains
contains-mem {k} {n} (Memᴰ.head {x} {xs} e) =
    rw (← ap (λ (c : Text × ℕ). c.0) e, text_eq_refl k) refl
contains-mem {k} {n} (Memᴰ.tail {x} {xs} m) = ground (arith, contains-mem m)

pub count_of-mem :
    {k : Text} {n : ℕ} {counts : List (Text × ℕ)}
    → IsDistinct (keys counts)
    → Memᴰ (k, n) counts
    → count_of k counts ≡ n
count_of-mem {k} {n} d (Memᴰ.head {x} {xs} e) =
    rw (← ap (λ (c : Text × ℕ). c.0) e, text_eq_refl k) (sym (ap (λ (c : Text × ℕ). c.1) e))
count_of-mem {k} {n} d (Memᴰ.tail {x} {xs} m) = elim (Bool-cases (text_eq x.0 k)) [
  | inl e ↦
      let same_key : x.0 ≡ k = (text_eq_iff x.0 k).0 e in
      let found : contains (keys xs) k ≡ true = contains-mem m in absurd (cc (same_key, found, d.0))
  | inr e ↦ rw e (count_of-mem d.1 m)
]

pub mem-count_of :
    (k : Text) (counts : List (Text × ℕ))
    → 0 < count_of k counts
    → Memᴰ (k, count_of k counts) counts
mem-count_of k [] h = absurd (omega arith)
mem-count_of k ((j, n) ∷ counts) h = elim (Bool-cases (text_eq j k)) [
  | inl e ↦ rw e (Memᴰ.head (ap (λ i. (i, n)) (sym ((text_eq_iff j k).0 e))))
  | inr e ↦ rw e (Memᴰ.tail (mem-count_of k counts (rw e at h)))
]

abbrev pub IsPositive : List (Text × ℕ) → Type 0
IsPositive counts = All (λ (c : Text × ℕ). 0 < c.1) counts

count_up-IsPositive :
    (k : Text) (counts : List (Text × ℕ)) → IsPositive counts → IsPositive (count_up k counts)
unfolding count_up
count_up-IsPositive k [] h = (omega arith, tt)
count_up-IsPositive k ((j, n) ∷ counts) (p, h) = elim (Bool-cases (text_eq j k)) [
  | inl e ↦ rw e (omega arith, h)
  | inr e ↦ rw e (p, count_up-IsPositive k counts h)
]

pub collect_results-IsPositive :
    (rs : List ScanResult) (st : State)
    → IsPositive st.counts
    → IsPositive (collect_results rs st).counts
unfolding collect_results
collect_results-IsPositive [] st h = h
collect_results-IsPositive (r ∷ rs) st h = collect_results-IsPositive rs (collect_result r st) (
    subst IsPositive (sym (counts-collect_result r st))
      (count_up-IsPositive (counted r) st.counts h))
