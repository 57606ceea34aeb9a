-- ===== src/Report/Store.antt =====
-- internal/report/backend.go, and what file.go keeps behind it: reports under their names. A call
-- may fail; which ones do is given by `faults`, one entry for each call to come. A call that fails
-- changes nothing, as a file is replaced by a rename.
pub mod Keeps
pub mod Ends
use yk_update_checker.Prelude.{Option, Bool, List, [], ◌∷◌, keep, some, ◌||◌, none}
use yk_update_checker.Errkind.{Failure}
use yk_update_checker.Text.{Text, text_eq, is_nil}
use yk_update_checker.Named.{put, remove}
use yk_update_checker.Report.Types.{Dependency, RepositoryScan}

pub record Store : Type 0 where
  pub scans : List RepositoryScan
  pub deps : List Dependency
  pub faults : List (Option Failure)

pub data Outcome {ℓ} (A : Type ℓ) : Type ℓ where
  done : A → Store → Outcome A
  failed : Failure → Store → Outcome A

abbrev pub M {ℓ} : Type ℓ → Type ℓ
M A = Store → Outcome A

-- What follows an outcome.
abbrev pub and_then {ℓ κ} : {A : Type ℓ} {B : Type κ} → Outcome A → (A → M B) → Outcome B
and_then (done a s) f = f a s
and_then (failed e s) f = failed e s

-- Not `abbrev`, so that rules about a chain of calls apply to it as it is written.
infixl 5 ◌>>=◌ ◌>>◌
unfoldable pub ◌>>=◌ {ℓ κ} : {A : Type ℓ} {B : Type κ} → M A → (A → M B) → M B
◌>>=◌ m f s = and_then (m s) f

unfoldable pub ◌>>◌ {ℓ κ} : {A : Type ℓ} {B : Type κ} → M A → M B → M B
unfolding ◌>>=◌
m >> k = m >>= λ _. k

abbrev pub return {ℓ} : {A : Type ℓ} → A → M A
return a s = done a s

abbrev pub fail {ℓ} : {A : Type ℓ} → Failure → M A
fail e s = failed e s

unfoldable pub call_with {ℓ} : {A : Type ℓ} → List (Option Failure) → (Store → A × Store) → M A
call_with [] f s = let (a, s') = f s in done a s'
call_with (none ∷ later) f s = let (a, s') = f s in done a (record s' { faults = later })
call_with (some e ∷ later) f s = failed e (record s { faults = later })

unfoldable pub call {ℓ} : {A : Type ℓ} → (Store → A × Store) → M A
unfolding call_with
call f s = call_with s.faults f s

abbrev pub scan_name : RepositoryScan → Text
scan_name rs = rs.name

abbrev pub dep_name : Dependency → Text
dep_name d = d.name

abbrev pub or_empty : Option Text → Text
or_empty none = []
or_empty (some s) = s

-- The filter of `Files.ListDependencies`
abbrev pub of_repo : Text → Dependency → Bool
of_repo id d = is_nil id || text_eq (or_empty d.labels.repo_id) id

unfoldable pub list_scans : M (List RepositoryScan)
unfolding call
list_scans = call (λ s. (s.scans, s))

unfoldable pub put_scan : RepositoryScan → M (Unit {0})
unfolding call put
put_scan rs = call (λ s. (tt, record s { scans = put scan_name rs s.scans }))

unfoldable pub delete_scan : Text → M (Unit {0})
unfolding call remove
delete_scan n = call (λ s. (tt, record s { scans = remove scan_name n s.scans }))

unfoldable pub list_dependencies : Text → M (List Dependency)
unfolding call text_eq
list_dependencies id = call (λ s. (keep (of_repo id) s.deps, s))

unfoldable pub put_dependency : Dependency → M (Unit {0})
unfolding call put
put_dependency d = call (λ s. (tt, record s { deps = put dep_name d s.deps }))

unfoldable pub delete_dependency : Text → M (Unit {0})
unfolding call remove
delete_dependency n = call (λ s. (tt, record s { deps = remove dep_name n s.deps }))
