-- ===== src/Scan/Run/Account.antt =====
-- internal/scan/runner.go: no repository is lost from a scan.
use yk_update_checker.Prelude.{
  List, Memᴰ, ◌≡◌, Option, ◌∷◌, All, refl, false, Bool-cases, [], inl, inr, length, true, Bool,
  ◌++◌, ◌≤◌, none, ◌+◌, if◌then◌else◌, ◌<◌, arith, suc, ◌==◌, ap,
}
use mathlib.Core.List.Memᴰ
use yk_update_checker.Scan.Run.{
  Finished, Collected, RepoError, finish_repo, collect_all, collect_outcome, after_hook, run,
  nothing_collected, join_errors,
}
use yk_update_checker.Registry.Cache.{Fetched, value, error}
use yk_update_checker.Errkind.{Failure, wrapped}
use yk_update_checker.Report.Types.{ScanResult}
use yk_update_checker.Text.{Text, codes}

-- An outcome as it stands in what a scan collected: an error under the repository's name, or every
-- result.
abbrev pub IsKept : Collected → Text → Fetched (List ScanResult) → Type 0
IsKept c repo (error e) = (x : RepoError) × Memᴰ x c.errors × (x.repo ≡ repo) × (x.err ≡ e)
IsKept c repo (value rs) = (r : ScanResult) → Memᴰ r rs → Memᴰ r c.results

-- What is collected stays.
record IsPart (c d : Collected) : Type 0 where
  errors : (x : RepoError) → Memᴰ x c.errors → Memᴰ x d.errors
  results : (r : ScanResult) → Memᴰ r c.results → Memᴰ r d.results

collect_outcome-IsPart :
    (c : Collected) (repo : Text) (o : Fetched (List ScanResult))
    → IsPart c (collect_outcome c repo o)
collect_outcome-IsPart c repo (error e) = record {
  errors = λ x m. Memᴰ.append_left _ m;
  results = λ r m. m;
}
collect_outcome-IsPart c repo (value rs) = record {
  errors = λ x m. m;
  results = λ r m. Memᴰ.append_left _ m;
}

collect_outcome-IsKept :
    (c : Collected) (repo : Text) (o : Fetched (List ScanResult))
    → IsKept (collect_outcome c repo o) repo o
collect_outcome-IsKept c repo (error e) =
    (record { repo = repo; err = e }, Memᴰ.append_right c.errors (Memᴰ.head refl), refl, refl)
collect_outcome-IsKept c repo (value rs) = λ r m. Memᴰ.append_right c.results m

IsKept-part :
    (c d : Collected) (repo : Text) (o : Fetched (List ScanResult))
    → IsPart c d
    → IsKept c repo o
    → IsKept d repo o
IsKept-part c d repo (error e) p (x, m, q, h) = (x, p.errors x m, q, h)
IsKept-part c d repo (value rs) p k = λ r m. p.results r (k r m)

module _ (on_repo : Text → Fetched (List ScanResult) → Option Failure) where
  -- What a repository gives once the hook has seen it.
  abbrev pub outcome_of : Finished → Fetched (List ScanResult)
  outcome_of f = after_hook f.outcome (on_repo f.repo f.outcome)

  abbrev pub Uninterrupted : List Finished → Type 0
  Uninterrupted = All (λ (f : Finished). f.interrupted ≡ false)

  finish_repo-IsPart : (c : Collected) (f : Finished) → IsPart c (finish_repo on_repo c f)
  unfolding finish_repo
  finish_repo-IsPart c f = elim (Bool-cases f.interrupted) [
    | inl e ↦ rw e record { errors = λ x m. m; results = λ r m. m }
    | inr e ↦ rw e (collect_outcome-IsPart c f.repo (outcome_of f))
  ]

  collect_all-IsPart : (c : Collected) (fs : List Finished) → IsPart c (collect_all on_repo c fs)
  unfolding collect_all
  collect_all-IsPart c [] = record { errors = λ x m. m; results = λ r m. m }
  collect_all-IsPart c (f ∷ fs) =
      let p = finish_repo-IsPart c f in
      let q = collect_all-IsPart (finish_repo on_repo c f) fs in
      record {
        errors = λ x m. q.errors x (p.errors x m);
        results = λ r m. q.results r (p.results r m);
      }

  finish_repo-IsKept :
      (c : Collected) (f : Finished)
      → f.interrupted ≡ false
      → IsKept (finish_repo on_repo c f) f.repo (outcome_of f)
  unfolding finish_repo
  finish_repo-IsKept c f e = rw e (collect_outcome-IsKept c f.repo (outcome_of f))

  collect_all-IsKept :
      (c : Collected) (fs : List Finished) (f : Finished)
      → Uninterrupted fs
      → Memᴰ f fs
      → IsKept (collect_all on_repo c fs) f.repo (outcome_of f)
  unfolding collect_all
  collect_all-IsKept c [] f u m = elim m [ ]
  collect_all-IsKept c (g ∷ fs) f (e, u) (Memᴰ.tail m) =
      collect_all-IsKept (finish_repo on_repo c g) fs f u m
  collect_all-IsKept c (g ∷ fs) f (e, u) (Memᴰ.head q) =
      IsKept-part (finish_repo on_repo c g) (collect_all on_repo (finish_repo on_repo c g) fs)
        f.repo (outcome_of f) (collect_all-IsPart (finish_repo on_repo c g) fs)
        (rw q (finish_repo-IsKept c g e))

abbrev pub is_failed : Fetched (List ScanResult) → Bool
is_failed (error e) = true
is_failed (value rs) = false

-- The errors are those of the repositories that failed.
length-snoc : {A : Type 0} (xs : List A) (a : A) → length (xs ++ a ∷ []) ≡ suc (length xs)
length-snoc [] a = refl
length-snoc (x ∷ xs) a = ap suc (length-snoc xs a)

collect_outcome-errors :
    (c : Collected) (repo : Text) (o : Fetched (List ScanResult))
    → length (collect_outcome c repo o).errors
      ≡ (if is_failed o then suc (length c.errors) else length c.errors)
collect_outcome-errors c repo (error e) = length-snoc c.errors record { repo = repo; err = e }
collect_outcome-errors c repo (value rs) = refl

module _ (on_repo : Text → Fetched (List ScanResult) → Option Failure) where
  finish_repo-errors :
      (c : Collected) (f : Finished)
      → f.interrupted ≡ false
      → length (finish_repo on_repo c f).errors
        ≡ (if is_failed (outcome_of on_repo f) then suc (length c.errors) else length c.errors)
  unfolding finish_repo
  finish_repo-errors c f e = rw e (collect_outcome-errors c f.repo (outcome_of on_repo f))

  collect_all-All_failed :
      (c : Collected) (fs : List Finished)
      → Uninterrupted on_repo fs
      → All (λ f. is_failed (outcome_of on_repo f) ≡ true) fs
      → length (collect_all on_repo c fs).errors ≡ length c.errors + length fs
  unfolding collect_all
  collect_all-All_failed c [] u h = omega arith
  collect_all-All_failed c (f ∷ fs) (e, u) (k, h) =
      let one : length (finish_repo on_repo c f).errors ≡ suc (length c.errors) =
        rw k at (finish_repo-errors c f e) in
      omega (arith, one, collect_all-All_failed (finish_repo on_repo c f) fs u h)

  finish_repo-le :
      (c : Collected) (f : Finished)
      → f.interrupted ≡ false
      → length (finish_repo on_repo c f).errors ≤ suc (length c.errors)
  finish_repo-le c f e = ground (arith, finish_repo-errors c f e)

  collect_all-le :
      (c : Collected) (fs : List Finished)
      → Uninterrupted on_repo fs
      → length (collect_all on_repo c fs).errors ≤ length c.errors + length fs
  unfolding collect_all
  collect_all-le c [] u = omega arith
  collect_all-le c (f ∷ fs) (e, u) =
      omega (arith, finish_repo-le c f e, collect_all-le (finish_repo on_repo c f) fs u)

  -- One repository that does not fail leaves fewer errors than repositories.
  collect_all-lt :
      (c : Collected) (fs : List Finished) (g : Finished)
      → Uninterrupted on_repo fs
      → Memᴰ g fs
      → is_failed (outcome_of on_repo g) ≡ false
      → length (collect_all on_repo c fs).errors < length c.errors + length fs
  unfolding collect_all
  collect_all-lt c [] g u m h = elim m [ ]
  collect_all-lt c (f ∷ fs) g (e, u) (Memᴰ.tail m) h =
      omega (arith, finish_repo-le c f e, collect_all-lt (finish_repo on_repo c f) fs g u m h)
  collect_all-lt c (f ∷ fs) g (e, u) (Memᴰ.head q) h =
      let none_new : length (finish_repo on_repo c f).errors ≡ length c.errors =
        rw (rw q at h) at (finish_repo-errors c f e) in
      omega (arith, none_new, collect_all-le (finish_repo on_repo c f) fs u)

  -- A scan that is not interrupted, and in which one repository or more neither failed nor was
  -- refused by the hook, returns what it collected, in whatever order the repositories finished: for
  -- each of them all its results, or its error under its name.
  pub run-IsKept :
      (fs : List Finished) (g : Finished)
      → Uninterrupted on_repo fs
      → Memᴰ g fs
      → is_failed (outcome_of on_repo g) ≡ false
      → (c : Collected) × (run on_repo (length fs) none fs ≡ value c)
        × ((f : Finished) → Memᴰ f fs → IsKept c f.repo (outcome_of on_repo f))
  unfolding run
  run-IsKept fs g u m h =
      let c = collect_all on_repo nothing_collected fs in
      let fewer : length c.errors < length fs =
        omega (arith, collect_all-lt nothing_collected fs g u m h) in
      (
        c,
        (let e : (length c.errors == length fs) ≡ false = ground (arith, fewer) in rw e refl),
        λ f k. collect_all-IsKept on_repo nothing_collected fs f u k,
      )

  -- A scan in which every repository fails is an error.
  pub run-All_failed :
      (fs : List Finished)
      → Uninterrupted on_repo fs
      → All (λ f. is_failed (outcome_of on_repo f) ≡ true) fs
      → (e : Failure) × (run on_repo (length fs) none fs ≡ error e)
  unfolding run
  run-All_failed fs u h =
      let c = collect_all on_repo nothing_collected fs in
      let all : length c.errors ≡ length fs =
        omega (arith, collect_all-All_failed nothing_collected fs u h) in
      (
        wrapped (codes "all repos failed to sync: ") (join_errors c.errors),
        let e : (length c.errors == length fs) ≡ true = ground (arith, all) in rw e refl,
      )
