-- ===== src/Report/Store/Keeps.antt =====
-- Parts of the store that a computation leaves alone, whether it ends well or fails.
use yk_update_checker.Prelude.{
  ◌∙◌, List, ◌≡◌, refl, Option, ◌∷◌, some, [], none, Bool, if◌then◌else◌, true, false,
}
use yk_update_checker.Report.Store.{
  Store, Outcome, done, failed, M, and_then, ◌>>=◌, call_with, call, list_scans, put_scan,
  list_dependencies, put_dependency, delete_dependency, Dependency, RepositoryScan, Text, return,
  ◌>>◌, fail,
}
use yk_update_checker.Errkind.{Failure}

abbrev pub store_of {ℓ} : {A : Type ℓ} → Outcome A → Store
store_of (done a s) = s
store_of (failed e s) = s

-- `part` is the same before and after.
pub record Keeps {ℓ κ} {A : Type ℓ} {B : Type κ} (part : Store → B) (m : M A) : Type κ where
  pub keeps : (s : Store) → part (store_of (m s)) ≡ part s

-- `part` is the same if the computation fails.
pub record KeepsOnFailure {ℓ κ} {A : Type ℓ} {B : Type κ} (part : Store → B) (m : M A)
    : Type (ℓ ⊔ κ) where
  pub keeps : (s : Store) (e : Failure) (s' : Store) → m s ≡ failed e s' → part s' ≡ part s

module _ {ℓ κ} {B : Type κ} (part : Store → B) {A : Type ℓ} where
  and_then-Keeps {μ} :
      {C : Type μ} (o : Outcome A) (k : A → M C)
      → ((a : A) → Keeps part (k a))
      → part (store_of (and_then o k)) ≡ part (store_of o)
  and_then-Keeps (done a s) k h = (h a).keeps s
  and_then-Keeps (failed e s) k h = refl

  pub bind-Keeps {μ} :
      {C : Type μ} {m : M A} {k : A → M C}
      → Keeps part m
      → ((a : A) → Keeps part (k a))
      → Keeps part (m >>= k)
  unfolding ◌>>=◌
  bind-Keeps {m} {k} h g = record { keeps = λ s. and_then-Keeps (m s) k g ∙ h.keeps s }

  pub then-Keeps {μ} :
      {C : Type μ} {m : M A} {k : M C} → Keeps part m → Keeps part k → Keeps part (m >> k)
  unfolding ◌>>◌
  then-Keeps h g = bind-Keeps h (λ _. g)

  and_then-fails {μ} :
      {C : Type μ} (o : Outcome A) (k : A → M C) {e : Failure} {s' : Store}
      → ((a : A) → KeepsOnFailure part (k a))
      → and_then o k ≡ failed e s'
      → part s' ≡ part (store_of o)
  and_then-fails (done a s) k {e} {s'} g h = (g a).keeps s e s' h
  and_then-fails (failed d s) k g h = cc

  pub bind-KeepsOnFailure {μ} :
      {C : Type μ} {m : M A} {k : A → M C}
      → Keeps part m
      → ((a : A) → KeepsOnFailure part (k a))
      → KeepsOnFailure part (m >>= k)
  unfolding ◌>>=◌
  bind-KeepsOnFailure {m} {k} h g = record {
    keeps = λ s e s' q. and_then-fails (m s) k g q ∙ h.keeps s;
  }

  pub return-Keeps : (a : A) → Keeps part (return a)
  return-Keeps a = record { keeps = λ s. refl }

  pub fail-Keeps : (e : Failure) → Keeps part (fail {A = A} e)
  fail-Keeps e = record { keeps = λ s. refl }

  -- Both branches of a test keep the part.
  pub if-Keeps :
      (b : Bool) {m n : M A} → Keeps part m → Keeps part n → Keeps part (if b then m else n)
  if-Keeps true h k = h
  if-Keeps false h k = k

  call_with-Keeps :
      (faults : List (Option Failure)) (f : Store → A × Store) (s : Store)
      → ((s : Store) (l : List (Option Failure)) → part (record s { faults = l }) ≡ part s)
      → ((s : Store) → part (f s).1 ≡ part s)
      → part (store_of (call_with faults f s)) ≡ part s
  unfolding call_with
  call_with-Keeps [] f s blind h = h s
  call_with-Keeps (none ∷ later) f s blind h = blind (f s).1 later ∙ h s
  call_with-Keeps (some e ∷ later) f s blind h = blind s later

  -- A call that leaves `part` alone, where `part` does not look at the faults to come.
  pub call-Keeps :
      (f : Store → A × Store)
      → ((s : Store) (l : List (Option Failure)) → part (record s { faults = l }) ≡ part s)
      → ((s : Store) → part (f s).1 ≡ part s)
      → Keeps part (call f)
  unfolding call
  call-Keeps f blind h = record { keeps = λ s. call_with-Keeps s.faults f s blind h }

call_with-failed {ℓ} :
    {A : Type ℓ} (faults : List (Option Failure)) (f : Store → A × Store) (s : Store) {e : Failure}
    {s' : Store}
    → call_with faults f s ≡ failed e s'
    → (s'.scans ≡ s.scans) × (s'.deps ≡ s.deps)
unfolding call_with
call_with-failed [] f s h = absurd (cc h)
call_with-failed (none ∷ later) f s h = absurd (cc h)
call_with-failed (some d ∷ later) f s h = (cc (h), cc (h))

-- A call that fails has changed nothing.
pub call-failed {ℓ} :
    {A : Type ℓ} (f : Store → A × Store) (s : Store) {e : Failure} {s' : Store}
    → call f s ≡ failed e s'
    → (s'.scans ≡ s.scans) × (s'.deps ≡ s.deps)
unfolding call
call-failed f s h = call_with-failed s.faults f s h

abbrev pub scans_of : Store → List RepositoryScan
scans_of s = s.scans

abbrev pub deps_of : Store → List Dependency
deps_of s = s.deps

pub list_scans-Keeps_scans : Keeps scans_of list_scans
unfolding list_scans
list_scans-Keeps_scans = call-Keeps scans_of _ (λ s l. refl) (λ s. refl)

pub list_scans-Keeps_deps : Keeps deps_of list_scans
unfolding list_scans
list_scans-Keeps_deps = call-Keeps deps_of _ (λ s l. refl) (λ s. refl)

pub list_dependencies-Keeps_scans : (id : Text) → Keeps scans_of (list_dependencies id)
unfolding list_dependencies
list_dependencies-Keeps_scans id = call-Keeps scans_of _ (λ s l. refl) (λ s. refl)

pub put_dependency-Keeps_scans : (d : Dependency) → Keeps scans_of (put_dependency d)
unfolding put_dependency
put_dependency-Keeps_scans d = call-Keeps scans_of _ (λ s l. refl) (λ s. refl)

pub delete_dependency-Keeps_scans : (n : Text) → Keeps scans_of (delete_dependency n)
unfolding delete_dependency
delete_dependency-Keeps_scans n = call-Keeps scans_of _ (λ s l. refl) (λ s. refl)

pub put_scan-Keeps_deps : (rs : RepositoryScan) → Keeps deps_of (put_scan rs)
unfolding put_scan
put_scan-Keeps_deps rs = call-Keeps deps_of _ (λ s l. refl) (λ s. refl)

pub put_scan-KeepsOnFailure : (rs : RepositoryScan) → KeepsOnFailure scans_of (put_scan rs)
unfolding put_scan
put_scan-KeepsOnFailure rs = record { keeps = λ s e s' h. (call-failed _ s h).0 }
