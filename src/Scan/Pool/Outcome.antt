-- ===== src/Scan/Pool/Outcome.antt =====
-- internal/scan/runner.go: what the items that ran have in common with those that were given.
use yk_update_checker.Prelude.{
  List, ℕ, map, false, Bool, [], ◌++◌, length, ◌∷◌, ◌≤◌, arith, ap, ◌<◌,
}
use mathlib.Core.List.Perm
use mathlib.Core.List.{
  Perm, perm_middle, perm_append_singleton, append_assoc, append-nil, map-append,
}
use yk_update_checker.Scan.Pool.Progress.{length-remove, Steps-to_end}
use yk_update_checker.Scan.Pool.{Pool, pool, Step, Steps, start, finish, stop}

abbrev pub running_of : {T R : Type 0} → Pool T R → List T
running_of (pool todo running done) = running

module _ {T R : Type 0} (fn : T → R) (limit : ℕ) (is_cancelled : Bool) where
  Step-bounded :
      {p q : Pool T R}
      → Step fn limit is_cancelled p q
      → length (running_of p) ≤ limit
      → length (running_of q) ≤ limit
  Step-bounded (start h) b = omega (arith, h)
  Step-bounded (stop e) b = b
  Step-bounded (finish front x back e r o) b =
      omega (arith, length-remove front x back, ap length e, ap length r, b)

  -- At no point of a run do more than `limit` items run at once.
  pub Steps-bounded :
      {n : ℕ} {p q : Pool T R}
      → Steps fn limit is_cancelled n p q
      → length (running_of p) ≤ limit
      → length (running_of q) ≤ limit
  Steps-bounded Steps.nil b = b
  Steps-bounded (Steps.cons s r) b = Steps-bounded r (Step-bounded s b)

module _ {T R : Type 0} (fn : T → R) (limit : ℕ) where
  -- The results so far and those to come.
  abbrev outcome : Pool T R → List R
  outcome (pool todo running done) = map fn todo ++ (map fn running ++ done)

  moved :
      (front : List T) (x : T) (back : List T) (done : List R)
      → Perm (map fn (front ++ x ∷ back) ++ done) (map fn (front ++ back) ++ (done ++ fn x ∷ []))
  moved front x back done =
      let rest = map fn front ++ map fn back in
      rw
        (
          map-append fn front (x ∷ back),
          map-append fn front back,
          ← append_assoc rest done (fn x ∷ []),
        )
        (Perm.trans (Perm.append_right done (perm_middle (map fn front) (map fn back)))
          (Perm.symm (perm_append_singleton (fn x) (rest ++ done))))

  Step-outcome : {p q : Pool T R} → Step fn limit false p q → Perm (outcome p) (outcome q)
  Step-outcome (start {x} {todo} {running} {done} h) =
      Perm.symm (perm_middle (map fn todo) (map fn running ++ done))
  Step-outcome (finish {todo} {done} front x back e r o) =
      rw (e, r, o) (Perm.append_left (map fn todo) (moved front x back done))
  Step-outcome (stop e) = absurd (cc e)

  Steps-outcome :
      {n : ℕ} {p q : Pool T R} → Steps fn limit false n p q → Perm (outcome p) (outcome q)
  Steps-outcome Steps.nil = Perm.rfl
  Steps-outcome (Steps.cons s r) = Perm.trans (Step-outcome s) (Steps-outcome r)

  -- Where the context is not cancelled, a run over the items that has come to its end, in whatever
  -- order the items finished, has appended the result of each item once.
  pub Steps-Perm :
      {n : ℕ} (items : List T) (done : List R)
      → Steps fn limit false n (pool items [] []) (pool [] [] done)
      → Perm (map fn items) done
  Steps-Perm items done r = rw (append-nil (map fn items)) at (Steps-outcome r)

  -- Where the limit is above zero and the context is not cancelled, the pool can go on from any state
  -- to one with nothing left, whose results are those so far and one for each item that was still to
  -- be started or ran.
  pub Steps-complete :
      0 < limit
      → (todo running : List T) (done : List R)
      → (n : ℕ) × (out : List R) × Steps fn limit false n (pool todo running done) (pool [] [] out)
        × Perm (map fn todo ++ (map fn running ++ done)) out
  Steps-complete h todo running done =
      let (n, out, r) = Steps-to_end fn limit false h todo running done in
      (n, out, r, Steps-outcome r)
