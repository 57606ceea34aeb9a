-- ===== src/Tests/ScanTests.antt =====
-- A scan and its pool of goroutines: internal/scan.
use mathlib.Core.List.{Perm}
use yk_update_checker.Prelude.{
  none, refl, false, List, [], ℕ, ◌∷◌, arith, ◌≡◌, ◌+◌, Option, Memᴰ, ◌≤◌, true, Bool, map, ◌++◌,
}
use yk_update_checker.Errkind.{Failure, plain}
use yk_update_checker.Registry.Cache.{Fetched, value, error}
use yk_update_checker.Report.Types.{ScanResult}
use yk_update_checker.Scan.Checks.{PendingCheck}
use yk_update_checker.Registry.Image.{TagMeta, Listed, Verified, DatedTag}
use yk_update_checker.Registry.Charts.{SemverLibrary}
use yk_update_checker.Registry.Scope.{Scope}
use yk_update_checker.Registry.Tag.{TagShape}
use yk_update_checker.Extractor.Ref.{Ref}
use yk_update_checker.Trigger.Process.{
  Reachable, initial, next, claimed, started, refused, Reachable_exclusive,
}
use yk_update_checker.Scan.Pool.{pool, Steps, start, finish}
use yk_update_checker.Scan.Pool.Outcome.{Steps-Perm, Steps-complete}
use yk_update_checker.Scan.Run.{Finished, Collected, run}
use yk_update_checker.Scan.Run.Account.{IsKept, outcome_of, run-IsKept}
use yk_update_checker.Text.{Text, codes}

abbrev increment : ℕ → ℕ
increment n = n + 1

-- Two items of which the second one finishes first, and one that starts after it.
reordered :
    Steps increment 2 false 6 (pool (10 ∷ 20 ∷ 30 ∷ []) [] []) (pool [] [] (21 ∷ 31 ∷ 11 ∷ []))
reordered = Steps.cons (start (omega arith)) (
    Steps.cons (start (omega arith)) (
      Steps.cons (finish [] 20 (10 ∷ []) refl refl refl) (
        Steps.cons (start (omega arith)) (
          Steps.cons (finish [] 30 (10 ∷ []) refl refl refl)
            (Steps.cons (finish [] 10 [] refl refl refl) Steps.nil)))))

Steps-Perm_example : Perm {A = ℕ} (11 ∷ 21 ∷ 31 ∷ []) (21 ∷ 31 ∷ 11 ∷ [])
Steps-Perm_example = Steps-Perm increment 2 (10 ∷ 20 ∷ 30 ∷ []) (21 ∷ 31 ∷ 11 ∷ []) reordered

first_two :
    Steps increment 2 false 2 (pool (10 ∷ 20 ∷ 30 ∷ []) [] []) (pool (30 ∷ []) (20 ∷ 10 ∷ []) [])
first_two = Steps.cons (start (omega arith)) (Steps.cons (start (omega arith)) Steps.nil)

Steps-complete_example :
    (n : ℕ) × (out : List ℕ) × Steps increment 2 false n
      (pool (10 ∷ 20 ∷ []) (5 ∷ []) [])
      (pool [] [] out)
    × Perm (map increment (10 ∷ 20 ∷ []) ++ (map increment (5 ∷ []) ++ [])) out
Steps-complete_example = Steps-complete increment 2 (omega arith) (10 ∷ 20 ∷ []) (5 ∷ []) []

abbrev stores_all : Text → Fetched (List ScanResult) → Option Failure
stores_all repo o = none

abbrev good : Finished
good = record { repo = codes "infra"; outcome = value []; interrupted = false }

abbrev bad : Finished
bad = record {
  repo = codes "apps";
  outcome = error (plain (codes "no such host"));
  interrupted = false;
}

run-IsKept_example :
    (c : Collected) × (run stores_all 2 none (bad ∷ good ∷ []) ≡ value c)
    × ((f : Finished) → Memᴰ f (bad ∷ good ∷ []) → IsKept c f.repo (outcome_of stores_all f))
run-IsKept_example =
    run-IsKept stores_all (bad ∷ good ∷ []) good (refl, (refl, tt)) (Memᴰ.tail (Memᴰ.head refl))
      refl

-- An image of two platforms, pinned to the digest of one of them.
abbrev platforms : TagMeta
platforms = record {
  digest = codes "sha256:i";
  version = [];
  children = codes "sha256:a" ∷ codes "sha256:b" ∷ [];
}

abbrev one_meta : Text → Text → Fetched TagMeta
one_meta ref digest = value platforms

abbrev one_listed : Text → TagShape → Listed
one_listed cur base = record { tags = []; exhaustive = true; first_err = none }

abbrev none_verified : TagShape → List TagShape → List Text → Verified
none_verified base cands tags = record {
  best = [];
  skipped = [];
  note = [];
  current_pushed = none;
  latest_pushed = none;
}

abbrev none_dated : Text → DatedTag
none_dated cur = record { tag = []; note = [] }

abbrev pinned_ref : Ref
pinned_ref = record {
  name = codes "redis";
  chart = codes "Pod";
  protocol = codes "image";
  repository = codes "index.docker.io/library/redis";
  current_version = codes "latest";
  digest = codes "sha256:b";
  kind = codes "Pod";
  final_stage = false;
}

abbrev pinned_check : PendingCheck
pinned_check = record {
  source = codes "infra";
  path = codes "pod.yaml";
  chart = [];
  ex_type = codes "image";
  ref = pinned_ref;
}

abbrev no_versions : SemverLibrary
no_versions = record {
  parse = λ t. none;
  greater_than = λ v w. false;
  sorted = λ vs. vs;
  constraint = λ t. error (plain []);
}

-- A child that runs while a second call is stores_all.
one_child : Reachable record { running = true; starting = 0; children = 1; ended = 0 }
one_child = next (next (next initial claimed) started) refused

Reachable_exclusive_example : (1 ≤ 1) × (1 ≤ 1 → ◌≡◌ {A = Bool} true true)
Reachable_exclusive_example = Reachable_exclusive one_child
