-- ===== src/Metrics/Unique.antt =====
-- No two series of a scrape have one descriptor and the same label values.
use mathlib.Core.Path.{subst}
use yk_update_checker.Prelude.{
  ◌≡◌, List, [], take, Bool-cases, inl, ◌++◌, ◌∷◌, inr, ◌||◌, false, ◌&&◌, ◌∙◌, refl, not, sym,
  arith, ltb, ◌⊎◌, ap, length, ap₂,
}
use mathlib.Core.List.{append-nil}
use yk_update_checker.Text.{Text, contains, is_nil}
use yk_update_checker.Report.Types.{ScanResult}
use yk_update_checker.Metrics.{
  Desc, Metric, State, outdated, scanned, drift, failed, skipped, key, issues, identity_values,
  change_values, collect_issues, collect_drift, collect_update, has_issue, collect_result,
  collect_results, gauge, last_scan, repo_fail,
}
use yk_update_checker.Metrics.Series.{
  series, series-append, Covered-other, Covered-own, Covered, Covered-add, Covered-skip,
}

-- The identity of a reference, in front of its kind of failure.
abbrev pub identity_key : List Text → Text
identity_key ls = key (take 8 ls)

-- Nothing of the families that the loop over the results does not send.
abbrev pub IsSilent : List Metric → Type 0
IsSilent out = (series scanned out ≡ []) × (series last_scan out ≡ []) × (series repo_fail out ≡ [])

IsSilent-append : (out ms : List Metric) → IsSilent out → IsSilent ms → IsSilent (out ++ ms)
IsSilent-append out ms (a, b, c) (p, q, r) =
    (both scanned a p, both last_scan b q, both repo_fail c r)
  where
    both : (d : Desc) → series d out ≡ [] → series d ms ≡ [] → series d (out ++ ms) ≡ []
    both d h k = series-append d out ms ∙ ap₂ (λ x y. x ++ y) h k

-- What each set covers.
abbrev pub IsApart : State → Type 0
IsApart st =
    Covered key st.seen (series outdated st.out)
    × Covered key st.seen_drift (series drift st.out)
    × Covered identity_key st.seen_ref (series failed st.out)
    × Covered identity_key st.seen_ref (series skipped st.out)
    × IsSilent st.out

collect_update-IsApart :
    (r : ScanResult) (ls : List Text) (st : State) → IsApart st → IsApart (collect_update r ls st)
unfolding collect_update series
collect_update-IsApart r ls st (a, b, c, d, z) = elim (Bool-cases r.update_available) [
  | inl u ↦ rw u (elim (Bool-cases (contains st.seen (key ls))) [
    | inl e ↦ rw e (a, b, c, d, z)
    | inr e ↦ rw e (
      Covered-own key outdated st.seen st.out 1 ls e a,
      Covered-other key drift outdated st.seen_drift st.out 1 ls refl b,
      Covered-other identity_key failed outdated st.seen_ref st.out 1 ls refl c,
      Covered-other identity_key skipped outdated st.seen_ref st.out 1 ls refl d,
      IsSilent-append st.out (gauge outdated 1 ls ∷ []) z (refl, refl, refl),
    )
  ])
  | inr u ↦ rw u (a, b, c, d, z)
]

collect_drift-IsApart :
    (r : ScanResult) (id : List Text) (st : State) → IsApart st → IsApart (collect_drift r id st)
unfolding collect_drift series
collect_drift-IsApart r id st (a, b, c, d, z) =
    elim (Bool-cases (r.digest_changed && not (contains st.seen_drift (key id)))) [
      | inl e ↦ rw e (
        Covered-other key outdated drift st.seen st.out 1 id refl a,
        Covered-own key drift st.seen_drift st.out 1 id (ground arith) b,
        Covered-other identity_key failed drift st.seen_ref st.out 1 id refl c,
        Covered-other identity_key skipped drift st.seen_ref st.out 1 id refl d,
        IsSilent-append st.out (gauge drift 1 id ∷ []) z (refl, refl, refl),
      )
      | inr e ↦ rw e (a, b, c, d, z)
    ]

-- None in the list is of the family, or one is, and it has the key.
abbrev pub AtMostOne : (List Text → Text) → Desc → Text → List Metric → Type 0
AtMostOne f d k ms = (series d ms ≡ []) ⊎ ((l : List Text) × (series d ms ≡ l ∷ []) × (f l ≡ k))

Covered-none :
    (f : List Text → Text) (d : Desc) (seen : List Text) (out ms : List Metric)
    → series d ms ≡ []
    → Covered f seen (series d out)
    → Covered f seen (series d (out ++ ms))
Covered-none f d seen out ms h c =
    subst (Covered f seen)
      (sym (series-append d out ms ∙ ap (λ l. series d out ++ l) h ∙ append-nil (series d out))) c

Covered-maybe :
    (f : List Text → Text) (d : Desc) (seen : List Text) (k : Text) (out ms : List Metric)
    → AtMostOne f d k ms
    → contains seen k ≡ false
    → Covered f seen (series d out)
    → Covered f (seen ++ k ∷ []) (series d (out ++ ms))
Covered-maybe f d seen k out ms (inl h) n c =
    Covered-none f d (seen ++ k ∷ []) out ms h (Covered-skip f seen k (series d out) c)
Covered-maybe f d seen k out ms (inr (l, h, e)) n c =
    subst (Covered f (seen ++ k ∷ []))
      (sym (series-append d out ms ∙ ap (λ ls. series d out ++ ls) h))
      (subst (λ t. Covered f (seen ++ t ∷ []) (series d out ++ l ∷ [])) e
        (Covered-add f seen l (series d out) c (rw e n)))

-- What `collectIssues` sends: series of two families, at most one of each.
pub series-issues :
    (r : ScanResult) (id : List Text)
    → identity_key id ≡ key id
    → ((k : Text) → identity_key (id ++ k ∷ []) ≡ key id)
    → (series outdated (issues r id) ≡ [])
      × (series drift (issues r id) ≡ [])
      × AtMostOne identity_key failed (key id) (issues r id)
      × AtMostOne identity_key skipped (key id) (issues r id)
      × IsSilent (issues r id)
unfolding issues series
series-issues r id i j = elim (Bool-cases (is_nil r.check_error)) [
  | inl e ↦ rw e (elim (Bool-cases (ltb (length r.skipped) 1)) [
    | inl o ↦ rw o (refl, refl, inl refl, inl refl, (refl, refl, refl))
    | inr o ↦ rw o (refl, refl, inl refl, inr (id, refl, i), (refl, refl, refl))
  ])
  | inr e ↦ rw e (elim (Bool-cases (ltb (length r.skipped) 1)) [
    | inl o ↦ rw o (refl, refl, inr (_, refl, j _), inl refl, (refl, refl, refl))
    | inr o ↦ rw o (refl, refl, inr (_, refl, j _), inr (id, refl, i), (refl, refl, refl))
  ])
]

issues-IsApart :
    (r : ScanResult) (id : List Text) (st : State)
    → identity_key id ≡ key id
    → ((k : Text) → identity_key (id ++ k ∷ []) ≡ key id)
    → contains st.seen_ref (key id) ≡ false
    → IsApart st
    → IsApart (record st { seen_ref = st.seen_ref ++ key id ∷ []; out = st.out ++ issues r id })
issues-IsApart r id st i j n (a, b, c, d, z) =
    let (p, q, u, v, w) = series-issues r id i j in
    (
      Covered-none key outdated st.seen st.out (issues r id) p a,
      Covered-none key drift st.seen_drift st.out (issues r id) q b,
      Covered-maybe identity_key failed st.seen_ref (key id) st.out (issues r id) u n c,
      Covered-maybe identity_key skipped st.seen_ref (key id) st.out (issues r id) v n d,
      IsSilent-append st.out (issues r id) z w,
    )

collect_issues-IsApart :
    (r q : ScanResult) (st : State) → IsApart st → IsApart (collect_issues r (identity_values q) st)
unfolding collect_issues identity_values
collect_issues-IsApart r q st h =
    let id = identity_values q in
    elim (Bool-cases (contains st.seen_ref (key id) || not (has_issue r))) [
      | inl e ↦ rw e h
      | inr e ↦ rw e (issues-IsApart r id st refl (λ k. refl) (ground arith) h)
    ]

collect_result-IsApart : (r : ScanResult) (st : State) → IsApart st → IsApart (collect_result r st)
unfolding collect_result
collect_result-IsApart r st h =
    collect_update-IsApart r (identity_values r ++ change_values r) _
      (collect_drift-IsApart r (identity_values r) _ (collect_issues-IsApart r r _ h))

pub collect_results-IsApart :
    (rs : List ScanResult) (st : State) → IsApart st → IsApart (collect_results rs st)
unfolding collect_results
collect_results-IsApart [] st h = h
collect_results-IsApart (r ∷ rs) st h =
    collect_results-IsApart rs (collect_result r st) (collect_result-IsApart r st h)
