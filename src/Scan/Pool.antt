-- ===== src/Scan/Pool.antt =====
-- internal/scan/runner.go: `runConcurrent`, items worked on by at most `limit` goroutines at once, as
-- steps of a pool.
pub mod Outcome
pub mod Progress
use yk_update_checker.Prelude.{ℕ, List, Bool, suc, length, ◌<◌, ◌∷◌, ◌≡◌, ◌++◌, [], true}

-- What is still to be started, what runs, and what the finished calls of `fn` appended to the shared
-- results, which a mutex guards.
pub data Pool (T R : Type 0) : Type 0 where
  pool : List T → List T → List R → Pool T R

-- One step: the loop takes a slot of `sem` and starts the next item; a goroutine appends its result
-- and releases its slot; the loop sees that the context is cancelled and starts no more. The flag
-- says that the context is cancelled at some time of the run, so items may start before it is.
module _ {T R : Type 0} (fn : T → R) (limit : ℕ) (is_cancelled : Bool) where
  pub data Step : Pool T R → Pool T R → Type 0 where
    start :
        {x : T} {todo running : List T} {done : List R}
        → length running < limit
        → Step (pool (x ∷ todo) running done) (pool todo (x ∷ running) done)
    finish :
        {todo running rest : List T} {done out : List R} (front : List T) (x : T) (back : List T)
        → running ≡ front ++ x ∷ back
        → rest ≡ front ++ back
        → out ≡ done ++ fn x ∷ []
        → Step (pool todo running done) (pool todo rest out)
    stop :
        {x : T} {todo running : List T} {done : List R}
        → is_cancelled ≡ true
        → Step (pool (x ∷ todo) running done) (pool [] running done)

  -- A run of `n` steps.
  pub data Steps : ℕ → Pool T R → Pool T R → Type 0 where
    nil : {p : Pool T R} → Steps 0 p p
    cons : {n : ℕ} {p q r : Pool T R} → Step p q → Steps n q r → Steps (suc n) p r
