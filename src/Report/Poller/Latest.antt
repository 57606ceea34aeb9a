-- ===== src/Report/Poller/Latest.antt =====
-- The snapshot that the poller keeps is that of the last round whose two reads succeeded.
use yk_update_checker.Prelude.{
  none, some, inl, inr, true, false, [], Bool, List, ◌≡◌, if◌then◌else◌, Option, ◌∷◌, keep, All,
  Bool-cases, ap, ◌⊎◌, ◌++◌, refl, ◌∙◌,
}
use yk_update_checker.Errkind.{Failure}
use yk_update_checker.Report.Types.{RepositoryScan, Dependency}
use yk_update_checker.Report.Store.{Store, call, call_with, list_scans, list_dependencies, of_repo}
use yk_update_checker.Report.Poller.{Snapshot, load, run, with_repos, with_deps}

-- Neither of the next two calls fails.
abbrev pub is_readable_by : List (Option Failure) → Bool
is_readable_by [] = true
is_readable_by (some e ∷ faults) = false
is_readable_by (none ∷ []) = true
is_readable_by (none ∷ none ∷ faults) = true
is_readable_by (none ∷ some e ∷ faults) = false

abbrev pub is_readable : Store → Bool
is_readable s = is_readable_by s.faults

-- What is stored_now, all of it.
abbrev pub stored_now : Store → Snapshot
stored_now s = record { repos = s.scans; deps = s.deps }

keep-of_repo : (deps : List Dependency) → keep (of_repo []) deps ≡ deps
keep-of_repo [] = refl
keep-of_repo (d ∷ deps) = ap (λ ds. d ∷ ds) (keep-of_repo deps)

load_at :
    (current : Snapshot) (scans : List RepositoryScan) (deps : List Dependency)
    (faults : List (Option Failure))
    → let s : Store = record { scans = scans; deps = deps; faults = faults } in
      (load current s).0 ≡ (if is_readable s then stored_now s else current)
unfolding load with_repos with_deps list_scans list_dependencies call call_with
load_at current scans deps [] = ap (λ ds. record { repos = scans; deps = ds }) (keep-of_repo deps)
load_at current scans deps (some e ∷ faults) = refl
load_at current scans deps (none ∷ []) =
    ap (λ ds. record { repos = scans; deps = ds }) (keep-of_repo deps)
load_at current scans deps (none ∷ none ∷ faults) =
    ap (λ ds. record { repos = scans; deps = ds }) (keep-of_repo deps)
load_at current scans deps (none ∷ some e ∷ faults) = refl

load_lem :
    (current : Snapshot) (s : Store)
    → (load current s).0 ≡ (if is_readable s then stored_now s else current)
load_lem current s = load_at current s.scans s.deps s.faults

-- Every round fails and the first snapshot stays, or the last round that succeeds gives it.
abbrev pub IsLatest : Snapshot → List Store → Snapshot → Type 0
IsLatest current rounds snap =
    (All (λ s. is_readable s ≡ false) rounds × (snap ≡ current))
    ⊎ ((before : List Store) × (s : Store) × (after : List Store) × (rounds ≡ before ++ s ∷ after)
        × (is_readable s ≡ true)
        × All (λ s. is_readable s ≡ false) after
        × (snap ≡ stored_now s))

-- After any number of rounds.
pub run-IsLatest :
    (current : Snapshot) (rounds : List Store) → IsLatest current rounds (run current rounds)
unfolding run
run-IsLatest current [] = inl (tt, refl)
run-IsLatest current (s ∷ rounds) = elim (run-IsLatest (load current s).0 rounds) [
  | inl (h, e) ↦ elim (Bool-cases (is_readable s)) [
    | inl r ↦ inr ([], s, rounds, refl, r, h, e ∙ load_lem current s ∙ rw r refl)
    | inr r ↦ inl ((r, h), e ∙ load_lem current s ∙ rw r refl)
  ]
  | inr (before, t, after, e, r, h, k) ↦ inr (s ∷ before, t, after, ap (λ l. s ∷ l) e, r, h, k)
]
