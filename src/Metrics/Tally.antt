-- ===== src/Metrics/Tally.antt =====
-- The numbers of the scanned references are exact.
use mathlib.Core.Path.{subst}
use mathlib.Core.List.{append_assoc}
use yk_update_checker.Prelude.{
  mem-append, mem-map, mem_of_map, mem-append_right, List, ◌∷◌, ◌≡◌, ◌<◌, [], false, ℕ, ◌&&◌, arith,
  ap, if◌then◌else◌, ◌+◌, refl, ◌∙◌, Bool, Bool-cases, Memᴰ, &&_iff, ap₂, map, inl, ◌↔◌, true, inr,
  sym, All-mem, Option, ◌≢◌, some, none,
}
use yk_update_checker.Text.{Text, text_eq, text_eq_iff}
use yk_update_checker.Text.Joined.{join-inj}
use yk_update_checker.Text.Cut.{has_code, cut-append}
use yk_update_checker.Report.Types.{ScanResult}
use yk_update_checker.Report.Poller.{Snapshot}
use yk_update_checker.Metrics.Label.{bound, bound-clean}
use yk_update_checker.Metrics.{
  Metric, start, scanned, gauge, key, count_metric, collect_repos, collect_snapshot,
  collect_metrics,
}
use yk_update_checker.Metrics.Series.{series, mem-series}
use yk_update_checker.Metrics.Repos.{series-collect_repos}
use yk_update_checker.Metrics.Scrape.{results_of, end_of, end_of-IsApart, end_of-IsCounts}
use yk_update_checker.Metrics.Counts.{
  counted, tally, count_of, count_of-mem, mem-count_of, counts-collect_results, IsPair,
  collect_results-IsPositive,
}

-- The number of results whose source and type have the two labels.
unfoldable pub examined : Text → Text → List ScanResult → ℕ
examined a b [] = 0
examined a b (r ∷ rs) =
    (if text_eq (bound r.source) a && text_eq (bound r.type_) b then 1 else 0) + examined a b rs

abbrev IsClean₂ : Text → Text → Type 0
IsClean₂ a b = (has_code 0xff a ≡ false) × (has_code 0xff b ≡ false)

bool-ext : (x y : Bool) → ((x ≡ true) ↔ (y ≡ true)) → x ≡ y
bool-ext x y (f, g) = ground arith

pair-inj : (s t a b : Text) → ◌≡◌ {A = List Text} (s ∷ t ∷ []) (a ∷ b ∷ []) → (s ≡ a) × (t ≡ b)
pair-inj s t a b e = (cc, cc)

text_eq-counted :
    (r : ScanResult) (a b : Text)
    → IsClean₂ a b
    → text_eq (counted r) (key (a ∷ b ∷ []))
      ≡ (text_eq (bound r.source) a && text_eq (bound r.type_) b)
text_eq-counted r a b (c, d) = bool-ext _ _ (
  λ h.
      let e =
        join-inj 0xff (bound r.source) a (bound r.type_ ∷ []) (b ∷ [])
          (bound-clean r.source, (bound-clean r.type_, tt)) (c, (d, tt))
          ((text_eq_iff (counted r) (key (a ∷ b ∷ []))).0 h) in
      let (p, q) = pair-inj (bound r.source) (bound r.type_) a b e in
      (&&_iff _ _).1 ((text_eq_iff _ a).1 p, (text_eq_iff _ b).1 q),
  λ h.
      let (p, q) = (&&_iff (text_eq (bound r.source) a) (text_eq (bound r.type_) b)).0 h in
      (text_eq_iff (counted r) (key (a ∷ b ∷ []))).1 (
        ap₂ (λ s t. key (s ∷ t ∷ [])) ((text_eq_iff (bound r.source) a).0 p)
          ((text_eq_iff (bound r.type_) b).0 q)),
)

tally-examined :
    (a b : Text) (rs : List ScanResult)
    → IsClean₂ a b
    → tally (key (a ∷ b ∷ [])) rs ≡ examined a b rs
unfolding examined
tally-examined a b [] c = refl
tally-examined a b (r ∷ rs) c =
    ap₂ (λ t n. (if t then 1 else 0) + n) (text_eq-counted r a b c) (tally-examined a b rs c)

-- Labels that some result has are clean.
examined-IsClean₂ : (a b : Text) (rs : List ScanResult) → 0 < examined a b rs → IsClean₂ a b
unfolding examined
examined-IsClean₂ a b [] h = absurd (omega arith)
examined-IsClean₂ a b (r ∷ rs) h =
    elim (Bool-cases (text_eq (bound r.source) a && text_eq (bound r.type_) b)) [
      | inl e ↦
          let (p, q) = (&&_iff (text_eq (bound r.source) a) (text_eq (bound r.type_) b)).0 e in
          (
            subst (λ t. has_code 0xff t ≡ false) ((text_eq_iff (bound r.source) a).0 p)
                (bound-clean r.source),
            subst (λ t. has_code 0xff t ≡ false) ((text_eq_iff (bound r.type_) b).0 q)
                (bound-clean r.type_),
          )
      | inr e ↦ examined-IsClean₂ a b rs (ground arith)
    ]

counts_of :
    (snap : Snapshot) (k : Text) → count_of k (end_of snap).counts ≡ tally k (results_of snap)
counts_of snap k = (counts-collect_results (results_of snap) start (tt, tt)).1 k ∙ omega arith

gauge-pair :
    (n m : ℕ) (a b s t : Text)
    → gauge scanned n (a ∷ b ∷ []) ≡ gauge scanned m (s ∷ t ∷ [])
    → (n ≡ m) × ((a ≡ s) × (b ≡ t))
gauge-pair n m a b s t e =
    (ap (λ (g : Metric). g.value) e, pair-inj a b s t (ap (λ (g : Metric). g.labels) e))

-- The loops send no count.
scanned-only :
    (snap : Snapshot) (n : ℕ) (ls : List Text)
    → Memᴰ (gauge scanned n ls) (collect_snapshot snap)
    → Memᴰ (gauge scanned n ls) (map count_metric (end_of snap).counts)
unfolding collect_snapshot series
scanned-only snap n ls m = elim (mem-append (collect_repos snap.repos [] 0 []) _ m) [
  | inl k ↦ absurd (
      none_sent (collect_repos snap.repos [] 0 [])
        (series-collect_repos scanned snap.repos [] 0 [] refl refl) k)
  | inr k ↦ elim (mem-append (end_of snap).out _ k) [
    | inl j ↦ absurd (none_sent (end_of snap).out (end_of-IsApart snap).4.0 j)
    | inr j ↦ j
  ]
]
  where
    none_sent : (ms : List Metric) → series scanned ms ≡ [] → ¬ Memᴰ (gauge scanned n ls) ms
    none_sent ms e j = elim (subst (Memᴰ ls) e (mem-series j)) [ ]

-- A count is sent under its two labels.
count_metric-pair :
    (a b : Text) (n : ℕ)
    → IsClean₂ a b
    → count_metric (key (a ∷ b ∷ []), n) ≡ gauge scanned n (a ∷ b ∷ [])
unfolding count_metric
count_metric-pair a b n (c, d) = rw (append_assoc a (0xff ∷ []) b, cut-append 0xff a b c) refl

sent_of_examined :
    (snap : Snapshot) (a b : Text) (n : ℕ)
    → 0 < n
    → n ≡ examined a b (results_of snap)
    → Memᴰ (gauge scanned n (a ∷ b ∷ [])) (map count_metric (end_of snap).counts)
sent_of_examined snap a b n h e =
    let k = key (a ∷ b ∷ []) in
    let c = examined-IsClean₂ a b (results_of snap) (subst (λ m. 0 < m) e h) in
    let f : n ≡ count_of k (end_of snap).counts =
      e ∙ sym (counts_of snap k ∙ tally-examined a b (results_of snap) c) in
    let m = mem-count_of k (end_of snap).counts (subst (λ m. 0 < m) f h) in
    subst (λ g. Memᴰ g (map count_metric (end_of snap).counts))
      (ap (λ m. count_metric (k, m)) (sym f) ∙ count_metric-pair a b n c) (mem-map count_metric m)

pair-clean :
    (k : Text) (v n : ℕ) (a b : Text)
    → IsPair k
    → gauge scanned n (a ∷ b ∷ []) ≡ count_metric (k, v)
    → (n ≡ v) × (key (a ∷ b ∷ []) ≡ k) × IsClean₂ a b
pair-clean k v n a b (s, t, e, c, d) g =
    let whole =
      ap count_metric_at (e ∙ sym (append_assoc s (0xff ∷ []) t))
      ∙ count_metric-pair s t v (c, d) in
    let (p, q) = gauge-pair n v a b s t (g ∙ whole) in
    (
      p,
      ap₂ (λ x y. key (x ∷ y ∷ [])) q.0 q.1 ∙ append_assoc s (0xff ∷ []) t ∙ sym e,
      rw (q.0, q.1) (c, d),
    )
  where
    count_metric_at : Text → Metric
    count_metric_at x = count_metric (x, v)

examined_of_sent :
    (snap : Snapshot) (a b : Text) (n : ℕ)
    → Memᴰ (gauge scanned n (a ∷ b ∷ [])) (map count_metric (end_of snap).counts)
    → (0 < n) × (n ≡ examined a b (results_of snap))
examined_of_sent snap a b n m =
    let (c, j, e) = mem_of_map count_metric (end_of snap).counts m in
    let (d, p) = end_of-IsCounts snap in
    let (f, g, h) =
      pair-clean c.0 c.1 n a b (All-mem IsPair (mem-map (λ (c : Text × ℕ). c.0) j) p) e in
    (
      subst (λ m. 0 < m) (sym f)
          (All-mem (λ (c : Text × ℕ). 0 < c.1) j
            (collect_results-IsPositive (results_of snap) start tt)),
      f
          ∙ sym (count_of-mem d j)
          ∙ counts_of snap c.0
          ∙ ap (λ k. tally k (results_of snap)) (sym g)
          ∙ tally-examined a b (results_of snap) h,
    )

collect_snapshot-examined_iff :
    (snap : Snapshot) (a b : Text) (n : ℕ)
    → Memᴰ (gauge scanned n (a ∷ b ∷ [])) (collect_snapshot snap)
      ↔ ((0 < n) × (n ≡ examined a b (results_of snap)))
unfolding collect_snapshot
collect_snapshot-examined_iff snap a b n = (
  λ m. examined_of_sent snap a b n (scanned-only snap n (a ∷ b ∷ []) m),
  λ (h, e).
      mem-append_right (collect_repos snap.repos [] 0 [])
        (mem-append_right (end_of snap).out (sent_of_examined snap a b n h e)),
)

-- A follower sends no number of examined references. Any other replica sends one for a source and a
-- type exactly where some stored result has these labels, and the number is that of the results that
-- have them.
pub collect_metrics-examined_iff :
    (leading : Option Bool) (snap : Snapshot) (a b : Text) (n : ℕ)
    → Memᴰ (gauge scanned n (a ∷ b ∷ [])) (collect_metrics leading snap)
      ↔ ((leading ≢ some false) × (0 < n) × (n ≡ examined a b (results_of snap)))
unfolding collect_metrics
collect_metrics-examined_iff none snap a b n = (
  λ m. let (p, q) = (collect_snapshot-examined_iff snap a b n).0 m in (λ f. cc f, p, q),
  λ (l, p, q). (collect_snapshot-examined_iff snap a b n).1 (p, q),
)
collect_metrics-examined_iff (some true) snap a b n = (
  λ m. let (p, q) = (collect_snapshot-examined_iff snap a b n).0 m in (λ f. cc f, p, q),
  λ (l, p, q). (collect_snapshot-examined_iff snap a b n).1 (p, q),
)
collect_metrics-examined_iff (some false) snap a b n =
    (λ m. elim m [ ], λ (l, p, q). absurd (l refl))
