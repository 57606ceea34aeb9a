-- ===== src/Report/Writer/Pruned.antt =====
-- What pruning leaves alone.
use yk_update_checker.Named.{find, find-remove}
use yk_update_checker.Report.Types.{RepositoryScan, Dependency, repository_scan_name}
use yk_update_checker.Report.Writer.{Writer, prune_scans, prune, delete_all}
use yk_update_checker.Report.Store.Keeps.{
  call-Keeps, Keeps, return-Keeps, store_of, then-Keeps, bind-Keeps, if-Keeps,
}
use yk_update_checker.Text.{Text, contains, text_eq, text_eq_iff, text_eq_refl}
use yk_update_checker.Prelude.{
  ◌≡◌, List, Option, false, true, Bool-cases, map, refl, inl, ◌∷◌, inr, [], Memᴰ, arith,
}
use yk_update_checker.Report.Store.{
  Store, list_scans, list_dependencies, delete_scan, delete_dependency, M, scan_name,
}

-- What is stored as the report of the name `n`.
abbrev pub report_of : Text → Store → Option RepositoryScan
report_of n s = find scan_name n s.scans

abbrev Leaves {ℓ} : {A : Type ℓ} → Text → M A → Type 0
Leaves n m = Keeps (report_of n) m

list_scans-Leaves : (n : Text) → Leaves n list_scans
unfolding list_scans
list_scans-Leaves n = call-Keeps (report_of n) _ (λ s l. refl) (λ s. refl)

list_dependencies-Leaves : (n id : Text) → Leaves n (list_dependencies id)
unfolding list_dependencies
list_dependencies-Leaves n id = call-Keeps (report_of n) _ (λ s l. refl) (λ s. refl)

delete_dependency-Leaves : (n d : Text) → Leaves n (delete_dependency d)
unfolding delete_dependency
delete_dependency-Leaves n d = call-Keeps (report_of n) _ (λ s l. refl) (λ s. refl)

delete_scan-Leaves : (n m : Text) → text_eq m n ≡ false → Leaves n (delete_scan m)
unfolding delete_scan
delete_scan-Leaves n m h =
    call-Keeps (report_of n) _ (λ s l. refl) (λ s. rw (find-remove scan_name, h) refl)

-- A name that is kept is not one that is not.
kept_ne :
    (keep_names : List Text) (n m : Text)
    → contains keep_names n ≡ true
    → contains keep_names m ≡ false
    → text_eq m n ≡ false
kept_ne keep_names n m h k = elim (Bool-cases (text_eq m n)) [
  | inl e ↦ absurd (cc ((text_eq_iff m n).0 e, h, k))
  | inr e ↦ e
]

contains-map :
    (f : Text → Text) {a : Text} {l : List Text} → Memᴰ a l → contains (map f l) (f a) ≡ true
unfolding contains
contains-map f (Memᴰ.head {x} e) = rw (e, text_eq_refl (f x)) refl
contains-map f (Memᴰ.tail m) = ground (arith, contains-map f m)

module _ (short_hash : Text → Text) (w : Writer) where
  delete_all-Leaves : (n : Text) (deps : List Dependency) → Leaves n (delete_all short_hash w deps)
  unfolding delete_all
  delete_all-Leaves n [] = return-Keeps (report_of n) tt
  delete_all-Leaves n (d ∷ deps) =
      then-Keeps (report_of n) (delete_dependency-Leaves n d.name) (delete_all-Leaves n deps)

  prune_scans-Leaves :
      (keep_names : List Text) (n : Text) (scans : List RepositoryScan)
      → contains keep_names n ≡ true
      → Leaves n (prune_scans short_hash w keep_names scans)
  unfolding prune_scans
  prune_scans-Leaves keep_names n [] h = return-Keeps (report_of n) tt
  prune_scans-Leaves keep_names n (rs ∷ scans) h = elim (Bool-cases (contains keep_names rs.name)) [
    | inl e ↦ rw e (prune_scans-Leaves keep_names n scans h)
    | inr e ↦ if-Keeps (report_of n) _ (prune_scans-Leaves keep_names n scans h) (
        bind-Keeps (report_of n) (list_dependencies-Leaves n _) (λ deps.
          then-Keeps (report_of n) (delete_all-Leaves n deps) (
            then-Keeps (report_of n)
              (delete_scan-Leaves n rs.name (kept_ne keep_names n rs.name h e))
              (prune_scans-Leaves keep_names n scans h))))
  ]

  -- Pruning leaves the report of every configured repository as it was, whether it ends well or some
  -- call fails.
  pub prune-configured :
      (repos : List Text) (repo : Text) (s : Store)
      → Memᴰ repo repos
      → report_of (repository_scan_name short_hash repo) (store_of (prune short_hash w repos s))
        ≡ report_of (repository_scan_name short_hash repo) s
  unfolding prune
  prune-configured repos repo s h =
      (bind-Keeps (report_of (repository_scan_name short_hash repo))
          (list_scans-Leaves (repository_scan_name short_hash repo))
          (λ scans.
            prune_scans-Leaves _ _ scans (contains-map (repository_scan_name short_hash) h))).keeps
        s
