-- ===== src/Metrics/Exact.antt =====
-- What a scrape says, exactly: the references with a newer version, and the counts.
use mathlib.Core.Path.{subst}
use yk_update_checker.Prelude.{
  Memᴰ, List, Option, ◌≡◌, Bool, map, ◌↔◌, All, inl, false, true, some, ◌≢◌, inr, none, ◌∷◌,
  Bool-cases, refl, sym, [], ◌∙◌, ap,
}
use yk_update_checker.Text.{Text, contains, text_eq, text_eq_iff}
use yk_update_checker.Text.Joined.{join-inj}
use yk_update_checker.Text.Cut.{has_code}
use yk_update_checker.Report.Types.{ScanResult}
use yk_update_checker.Report.Poller.{Snapshot}
use yk_update_checker.Metrics.Label.{bound-clean}
use yk_update_checker.Metrics.{
  start, outdated, key, identity_values, change_values, collect_snapshot, collect_metrics, Desc,
}
use yk_update_checker.Metrics.Series.{series, NoRepeat}
use yk_update_checker.Metrics.Scrape.{results_of, end_of, series-loop, collect_snapshot-NoRepeat}
use yk_update_checker.Metrics.Shown.{
  IsShownFor, outdated_labels, collect_results-source, collect_results-IsKeyed,
  collect_results-seen,
}

-- The collector of a replica that leads, or has no election, shows something.
abbrev IsSilentReplica : Option Bool → Type 0
IsSilentReplica leading = leading ≡ some false

-- Two results with one key have the same label values.
outdated_labels-inj :
    (q r : ScanResult)
    → key (outdated_labels q) ≡ key (outdated_labels r)
    → outdated_labels q ≡ outdated_labels r
unfolding identity_values change_values
outdated_labels-inj q r e = join-inj 0xff _ _ _ _ (clean q) (clean r) e
  where
    clean : (r : ScanResult) → All (λ s. has_code 0xff s ≡ false) (outdated_labels r)
    clean r = (
      bound-clean r.source,
      (
        bound-clean r.chart,
        (
          bound-clean r.dependency,
          (
            bound-clean r.type_,
            (
              bound-clean r.manifest_kind,
              (
                bound-clean r.protocol,
                (
                  bound-clean r.path,
                  (
                    bound-clean r.tag_kind,
                    (
                      bound-clean r.scope,
                      (bound-clean r.current_version, (bound-clean r.latest_version, tt)),
                    ),
                  ),
                ),
              ),
            ),
          ),
        ),
      ),
    )

mem-key :
    (k : Text) (ls : List (List Text))
    → contains (map key ls) k ≡ true
    → (l : List Text) × Memᴰ l ls × (key l ≡ k)
unfolding contains
mem-key k [] h = absurd (cc h)
mem-key k (l ∷ ls) h = elim (Bool-cases (text_eq k (key l))) [
  | inl e ↦ (l, Memᴰ.head refl, sym ((text_eq_iff k (key l)).0 e))
  | inr e ↦ let (m, j, f) = mem-key k ls (rw e at h) in (m, Memᴰ.tail j, f)
]

shown-end :
    (snap : Snapshot) (ls : List Text)
    → Memᴰ ls (series outdated (end_of snap).out) ↔ IsShownFor (results_of snap) ls
unfolding series
shown-end snap ls = (
  λ m. elim (collect_results-source (results_of snap) start ls m) [
    | inl k ↦ elim k [ ]
    | inr s ↦ s
  ],
  λ (r, m, u, e).
      let found = collect_results-seen start m u in
      let keyed = collect_results-IsKeyed (results_of snap) start refl in
      let (l, j, f) =
        mem-key (key (outdated_labels r)) (series outdated (end_of snap).out)
          (subst (λ s. contains s (key (outdated_labels r)) ≡ true) (sym keyed) found) in
      let (q, k, v, g) = source l j in
      subst (λ t. Memᴰ t (series outdated (end_of snap).out))
        (g ∙ outdated_labels-inj q r (ap key (sym g) ∙ f) ∙ sym e) j,
)
  where
    source :
        (l : List Text)
        → Memᴰ l (series outdated (end_of snap).out)
        → IsShownFor (results_of snap) l
    source l m = elim (collect_results-source (results_of snap) start l m) [
      | inl k ↦ elim k [ ]
      | inr s ↦ s
    ]

shown :
    (snap : Snapshot) (ls : List Text)
    → Memᴰ ls (series outdated (collect_snapshot snap)) ↔ IsShownFor (results_of snap) ls
shown snap ls = rw (series-loop outdated snap refl refl refl) (shown-end snap ls)

-- A follower shows nothing. Any other replica shows just the references of the stored results that
-- have a newer version.
pub collect_metrics-outdated_iff :
    (leading : Option Bool) (snap : Snapshot) (ls : List Text)
    → Memᴰ ls (series outdated (collect_metrics leading snap))
      ↔ ((leading ≢ some false) × IsShownFor (results_of snap) ls)
unfolding collect_metrics series
collect_metrics-outdated_iff none snap ls =
    (λ m. (λ e. cc e, (shown snap ls).0 m), λ s. (shown snap ls).1 s.1)
collect_metrics-outdated_iff (some true) snap ls =
    (λ m. (λ e. cc e, (shown snap ls).0 m), λ s. (shown snap ls).1 s.1)
collect_metrics-outdated_iff (some false) snap ls = (λ m. elim m [ ], λ s. absurd (s.0 refl))

-- Whoever collects, no two series of a family have the same label values.
pub collect_metrics-NoRepeat :
    (leading : Option Bool) (snap : Snapshot) (d : Desc)
    → NoRepeat (series d (collect_metrics leading snap))
unfolding collect_metrics series
collect_metrics-NoRepeat none snap d = collect_snapshot-NoRepeat snap d
collect_metrics-NoRepeat (some true) snap d = collect_snapshot-NoRepeat snap d
collect_metrics-NoRepeat (some false) snap d = tt
