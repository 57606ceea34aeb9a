-- ===== src/Report/Store/Ends.antt =====
-- What holds of the value and the store when a computation ends well.
use mathlib.Core.Path.{subst}
use yk_update_checker.Prelude.{
  Bool, List, ◌≡◌, Option, some, refl, if◌then◌else◌, true, ◌∷◌, [], false, none,
}
use yk_update_checker.Text.{text_eq_refl}
use yk_update_checker.Named.{find, find-put}
use yk_update_checker.Report.Types.{RepositoryScan}
use yk_update_checker.Report.Store.{
  Store, Outcome, done, failed, M, and_then, ◌>>=◌, ◌>>◌, call_with, call, put_scan, return, fail,
  scan_name, list_scans,
}
use yk_update_checker.Errkind.{Failure}

pub record Ends {ℓ κ} {A : Type ℓ} (P : A → Store → Type κ) (m : M A) : Type (ℓ ⊔ κ) where
  pub ends : (s : Store) (a : A) (s' : Store) → m s ≡ done a s' → P a s'

module _ {ℓ κ ν} {A : Type ℓ} {Q : A → Type ν} where
  and_then-ends {μ} :
      {C : Type μ} {P : C → Store → Type κ} (o : Outcome A) (k : A → M C)
      → ((a : A) (s : Store) → o ≡ done a s → Q a)
      → ((a : A) → Q a → Ends P (k a))
      → (c : C) (s' : Store) → and_then o k ≡ done c s'
      → P c s'
  and_then-ends (done a s) k h g c s' e = (g a (h a s refl)).ends s c s' e
  and_then-ends (failed d s) k h g c s' e = cc

  pub bind-Ends {μ} :
      {C : Type μ} {P : C → Store → Type κ} {m : M A} {k : A → M C}
      → Ends (λ a _. Q a) m
      → ((a : A) → Q a → Ends P (k a))
      → Ends P (m >>= k)
  unfolding ◌>>=◌
  bind-Ends {m} {k} h g = record {
    ends = λ s c s' e. and_then-ends (m s) k (λ a s₁ q. h.ends s a s₁ q) g c s' e;
  }

-- Nothing is asked of the value.
pub any-Ends {ℓ} : {A : Type ℓ} (m : M A) → Ends (λ _ _. Unit {0}) m
any-Ends m = record { ends = λ s a s' e. tt }

module _ {ℓ κ} {A : Type ℓ} where
  pub then-Ends {μ} :
      {C : Type μ} {P : C → Store → Type κ} (m : M A) {k : M C} → Ends P k → Ends P (m >> k)
  unfolding ◌>>◌
  then-Ends m h = bind-Ends (any-Ends m) (λ _ _. h)

  pub return-Ends : (P : A → Type κ) (a : A) → P a → Ends (λ a _. P a) (return a)
  return-Ends P a p = record { ends = λ s b s' e. subst P (cc (e)) p }

  pub weaken-Ends :
      {P P' : A → Type κ} {m : M A}
      → ((a : A) → P a → P' a)
      → Ends (λ a _. P a) m
      → Ends (λ a _. P' a) m
  weaken-Ends f h = record { ends = λ s a s' e. f a (h.ends s a s' e) }

  pub fail-Ends : {P : A → Store → Type κ} (e : Failure) → Ends P (fail e)
  fail-Ends e = record { ends = λ s a s' h. cc }

  pub if-Ends :
      {P : A → Store → Type κ} (b : Bool) {m n : M A}
      → Ends P m
      → Ends P n
      → Ends P (if b then m else n)
  if-Ends true h k = h
  if-Ends false h k = k

call_with-done {ℓ} :
    {A : Type ℓ} (faults : List (Option Failure)) (f : Store → A × Store) (s : Store) {a : A}
    {s' : Store}
    → call_with faults f s ≡ done a s'
    → (s'.scans ≡ (f s).1.scans) × (s'.deps ≡ (f s).1.deps)
unfolding call_with
call_with-done [] f s h = (cc (h), cc (h))
call_with-done (none ∷ later) f s h = (cc (h), cc (h))
call_with-done (some d ∷ later) f s h = absurd (cc h)

-- A call that ends well has done its work on the store.
pub call-done {ℓ} :
    {A : Type ℓ} (f : Store → A × Store) (s : Store) {a : A} {s' : Store}
    → call f s ≡ done a s'
    → (s'.scans ≡ (f s).1.scans) × (s'.deps ≡ (f s).1.deps)
unfolding call
call-done f s h = call_with-done s.faults f s h

pub put_scan-Ends :
    (rs : RepositoryScan) → Ends (λ _ s. find scan_name rs.name s.scans ≡ some rs) (put_scan rs)
unfolding put_scan
put_scan-Ends rs = record {
  ends = λ s a s' h. rw ((call-done _ s h).0, find-put scan_name, text_eq_refl rs.name) refl;
}

and_then-eq-done {ℓ κ} :
    {A : Type ℓ} {C : Type κ} (o : Outcome A) (k : A → M C) {c : C} {s' : Store}
    → and_then o k ≡ done c s'
    → (a : A) × (t : Store) × (o ≡ done a t) × (k a t ≡ done c s')
and_then-eq-done (done a t) k h = (a, t, refl, h)
and_then-eq-done (failed e t) k h = absurd (cc h)

-- Both parts of a chain that ends well have ended well.
pub bind-eq-done {ℓ κ} :
    {A : Type ℓ} {C : Type κ} (m : M A) (k : A → M C) (s : Store) {c : C} {s' : Store}
    → (m >>= k) s ≡ done c s'
    → (a : A) × (t : Store) × (m s ≡ done a t) × (k a t ≡ done c s')
unfolding ◌>>=◌
bind-eq-done m k s h = and_then-eq-done (m s) k h

call_with-value {ℓ} :
    {A : Type ℓ} (faults : List (Option Failure)) (f : Store → A × Store) (s : Store) {a : A}
    {s' : Store}
    → call_with faults f s ≡ done a s'
    → a ≡ (f s).0
unfolding call_with
call_with-value [] f s h = cc (h)
call_with-value (none ∷ later) f s h = cc (h)
call_with-value (some d ∷ later) f s h = absurd (cc h)

pub call-value {ℓ} :
    {A : Type ℓ} (f : Store → A × Store) (s : Store) {a : A} {s' : Store}
    → call f s ≡ done a s'
    → a ≡ (f s).0
unfolding call
call-value f s h = call_with-value s.faults f s h

pub list_scans-value :
    (s : Store) {l : List RepositoryScan} {s' : Store} → list_scans s ≡ done l s' → l ≡ s.scans
unfolding list_scans
list_scans-value s h = call-value _ s h
