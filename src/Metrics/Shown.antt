-- ===== src/Metrics/Shown.antt =====
-- Which references a scrape shows as outdated: those of the results with a newer version.
use mathlib.Core.Path.{subst}
use yk_update_checker.Prelude.{
  Bool-cases, List, map, ◌≡◌, true, ◌||◌, ◌&&◌, false, inl, ◌++◌, not, ◌⊎◌, inr, ◌∙◌, ap, arith,
  refl, sym, ◌∷◌, [], Bool, Memᴰ,
}
use yk_update_checker.Prelude.{mem-append}
use mathlib.Core.List.{append-nil, map-append}
use yk_update_checker.Text.{Text, contains, text_eq_refl}
use yk_update_checker.Text.Distinct.{contains-append}
use yk_update_checker.Report.Types.{ScanResult}
use yk_update_checker.Metrics.{
  State, outdated, drift, key, identity_values, change_values, issues, has_issue, collect_issues,
  collect_drift, collect_update, collect_result, count_reference, collect_results,
}
use yk_update_checker.Metrics.Series.{series, series-append, series-own, series-other}
use yk_update_checker.Metrics.Unique.{series-issues}

-- The label values of a result's series.
abbrev pub outdated_labels : ScanResult → List Text
outdated_labels r = identity_values r ++ change_values r

-- Two states that agree on the outdated references.
abbrev IsAlike : State → State → Type 0
IsAlike st st' = (st'.seen ≡ st.seen) × (series outdated st'.out ≡ series outdated st.out)

collect_issues-IsAlike :
    (r : ScanResult) (st : State) → IsAlike st (collect_issues r (identity_values r) st)
unfolding collect_issues identity_values
collect_issues-IsAlike r st =
    elim (Bool-cases (contains st.seen_ref (key (identity_values r)) || not (has_issue r))) [
      | inl e ↦ rw e (refl, refl)
      | inr e ↦ rw e (
        refl,
        series-append outdated st.out (issues r (identity_values r))
            ∙ ap (λ l. series outdated st.out ++ l)
                (series-issues r (identity_values r) refl (λ k. refl)).0
            ∙ append-nil (series outdated st.out),
      )
    ]

collect_drift-IsAlike :
    (r : ScanResult) (id : List Text) (st : State) → IsAlike st (collect_drift r id st)
unfolding collect_drift
collect_drift-IsAlike r id st =
    elim (Bool-cases (r.digest_changed && not (contains st.seen_drift (key id)))) [
      | inl e ↦ rw e (refl, series-other outdated drift st.out 1 id refl)
      | inr e ↦ rw e (refl, refl)
    ]

-- Nothing new, as no update is known or the series is there; or one more series, with its key.
abbrev IsStep : Bool → List Text → State → State → Type 0
IsStep upd ls st st' =
    (IsAlike st st' × ((upd ≡ false) ⊎ (contains st.seen (key ls) ≡ true)))
    ⊎ ((st'.seen ≡ st.seen ++ key ls ∷ [])
        × (series outdated st'.out ≡ series outdated st.out ++ ls ∷ [])
        × (upd ≡ true))

collect_update-IsStep :
    (r : ScanResult) (ls : List Text) (st : State)
    → IsStep r.update_available ls st (collect_update r ls st)
unfolding collect_update series
collect_update-IsStep r ls st = elim (Bool-cases r.update_available) [
  | inl u ↦ rw u (elim (Bool-cases (contains st.seen (key ls))) [
    | inl e ↦ rw e (inl ((refl, refl), inr refl))
    | inr e ↦ rw e (inr (refl, series-own outdated st.out 1 ls, refl))
  ])
  | inr u ↦ rw u (inl ((refl, refl), inl refl))
]

IsStep-alike :
    (upd : Bool) (ls : List Text) (st mid end_ : State)
    → IsAlike st mid
    → IsStep upd ls mid end_
    → IsStep upd ls st end_
IsStep-alike upd ls st mid end_ (a, b) (inl ((c, d), inl u)) = inl ((c ∙ a, d ∙ b), inl u)
IsStep-alike upd ls st mid end_ (a, b) (inl ((c, d), inr e)) =
    inl ((c ∙ a, d ∙ b), inr (subst (λ s. contains s (key ls) ≡ true) a e))
IsStep-alike upd ls st mid end_ (a, b) (inr (c, d, u)) =
    inr (c ∙ ap (λ s. s ++ key ls ∷ []) a, d ∙ ap (λ s. s ++ ls ∷ []) b, u)

collect_result-IsStep :
    (r : ScanResult) (st : State)
    → IsStep r.update_available (outdated_labels r) st (collect_result r st)
unfolding collect_result
collect_result-IsStep r st =
    let after_issues = collect_issues r (identity_values r) (count_reference r st) in
    let after_drift = collect_drift r (identity_values r) after_issues in
    let done = collect_update r (outdated_labels r) after_drift in
    let step = IsStep-alike r.update_available (outdated_labels r) in
    step st after_issues done (collect_issues-IsAlike r (count_reference r st)) (
      step after_issues after_drift done (collect_drift-IsAlike r (identity_values r) after_issues)
        (collect_update-IsStep r (outdated_labels r) after_drift))

-- The set is that of the keys of what has been sent.
abbrev pub IsKeyed : State → Type 0
IsKeyed st = map key (series outdated st.out) ≡ st.seen

IsStep-IsKeyed :
    (upd : Bool) (ls : List Text) (st st' : State) → IsStep upd ls st st' → IsKeyed st → IsKeyed st'
IsStep-IsKeyed upd ls st st' (inl ((a, b), c)) h = ap (map key) b ∙ h ∙ sym a
IsStep-IsKeyed upd ls st st' (inr (a, b, u)) h =
    ap (map key) b
    ∙ map-append key (series outdated st.out) (ls ∷ [])
    ∙ ap (λ s. s ++ key ls ∷ []) h
    ∙ sym a

IsStep-grows :
    (upd : Bool) (ls : List Text) (st st' : State) (k : Text)
    → IsStep upd ls st st'
    → contains st.seen k ≡ true
    → contains st'.seen k ≡ true
IsStep-grows upd ls st st' k (inl ((a, b), c)) h = rw a h
IsStep-grows upd ls st st' k (inr (a, b, u)) h = rw (a, contains-append st.seen (key ls) k, h) refl

IsStep-seen :
    (upd : Bool) (ls : List Text) (st st' : State)
    → IsStep upd ls st st'
    → upd ≡ true
    → contains st'.seen (key ls) ≡ true
IsStep-seen upd ls st st' (inl ((a, b), inl c)) u = absurd (cc (c, u))
IsStep-seen upd ls st st' (inl ((a, b), inr c)) u = rw a c
IsStep-seen upd ls st st' (inr (a, b, v)) u =
    rw (a, contains-append st.seen (key ls) (key ls), text_eq_refl (key ls)) (ground arith)

-- The results with a newer version, and nothing else.
abbrev pub IsShownFor : List ScanResult → List Text → Type 0
IsShownFor rs ls =
    (r : ScanResult) × Memᴰ r rs × (r.update_available ≡ true) × (ls ≡ outdated_labels r)

later_shown :
    (q : ScanResult) {rs : List ScanResult} {ls : List Text}
    → IsShownFor rs ls
    → IsShownFor (q ∷ rs) ls
later_shown q (r, m, u, e) = (r, Memᴰ.tail m, u, e)

IsStep-source :
    (r : ScanResult) (rs : List ScanResult) (st st' : State) (ls : List Text)
    → IsStep r.update_available (outdated_labels r) st st'
    → Memᴰ ls (series outdated st'.out)
    → Memᴰ ls (series outdated st.out) ⊎ IsShownFor (r ∷ rs) ls
IsStep-source r rs st st' ls (inl ((a, b), c)) m = inl (subst (Memᴰ ls) b m)
IsStep-source r rs st st' ls (inr (a, b, u)) m =
    elim (mem-append (series outdated st.out) (outdated_labels r ∷ []) (subst (Memᴰ ls) b m)) [
      | inl k ↦ inl k
      | inr k ↦ elim k [ Memᴰ.head e ↦ inr (r, Memᴰ.head refl, u, e) | Memᴰ.tail j ↦ elim j [ ] ]
    ]

pub collect_results-source :
    (rs : List ScanResult) (st : State) (ls : List Text)
    → Memᴰ ls (series outdated (collect_results rs st).out)
    → Memᴰ ls (series outdated st.out) ⊎ IsShownFor rs ls
unfolding collect_results
collect_results-source [] st ls m = inl m
collect_results-source (r ∷ rs) st ls m =
    elim (collect_results-source rs (collect_result r st) ls m) [
      | inl k ↦ IsStep-source r rs st (collect_result r st) ls (collect_result-IsStep r st) k
      | inr k ↦ inr (later_shown r k)
    ]

pub collect_results-IsKeyed :
    (rs : List ScanResult) (st : State) → IsKeyed st → IsKeyed (collect_results rs st)
unfolding collect_results
collect_results-IsKeyed [] st h = h
collect_results-IsKeyed (r ∷ rs) st h = collect_results-IsKeyed rs (collect_result r st) (
    IsStep-IsKeyed r.update_available (outdated_labels r) st (collect_result r st)
      (collect_result-IsStep r st) h)

collect_results-grows :
    (rs : List ScanResult) (st : State) (k : Text)
    → contains st.seen k ≡ true
    → contains (collect_results rs st).seen k ≡ true
unfolding collect_results
collect_results-grows [] st k h = h
collect_results-grows (r ∷ rs) st k h = collect_results-grows rs (collect_result r st) k (
    IsStep-grows r.update_available (outdated_labels r) st (collect_result r st) k
      (collect_result-IsStep r st) h)

pub collect_results-seen :
    {r : ScanResult} {rs : List ScanResult} (st : State)
    → Memᴰ r rs
    → r.update_available ≡ true
    → contains (collect_results rs st).seen (key (outdated_labels r)) ≡ true
unfolding collect_results
collect_results-seen {r} st (Memᴰ.head {x} {xs} e) u =
    let seen_now =
      IsStep-seen x.update_available (outdated_labels x) st (collect_result x st)
        (collect_result-IsStep x st) (subst (λ q. q.update_available ≡ true) e u) in
    subst
      (λ q.
        contains (collect_results xs (collect_result x st)).seen (key (outdated_labels q)) ≡ true)
      (sym e) (collect_results-grows xs (collect_result x st) (key (outdated_labels x)) seen_now)
collect_results-seen {r} st (Memᴰ.tail {x} {xs} m) u =
    collect_results-seen (collect_result x st) m u
