-- ===== src/Scan/Pool/Progress.antt =====
-- internal/scan/runner.go: every run of the pool comes to an end.
use yk_update_checker.Prelude.{
  List, ℕ, Bool, length, ◌*◌, ◌<◌, ◌++◌, ◌+◌, arith, [], ◌∷◌, ◌≤◌, ap, ◌≡◌, suc, refl,
}
use yk_update_checker.Scan.Pool.{Pool, pool, Step, Steps, start, finish, stop}

-- What is left to do: two steps for an item that is not started, one for an item that runs.
abbrev pub work : {T R : Type 0} → Pool T R → ℕ
work (pool todo running done) = 2 * length todo + length running

pub length-remove :
    {T : Type 0} (front : List T) (x : T) (back : List T)
    → length (front ++ x ∷ back) ≡ suc (length (front ++ back))
length-remove [] x back = refl
length-remove (y ∷ front) x back = ap suc (length-remove front x back)

module _ {T R : Type 0} (fn : T → R) (limit : ℕ) (is_cancelled : Bool) where
  Step-work : {p q : Pool T R} → Step fn limit is_cancelled p q → work q < work p
  Step-work (start h) = omega arith
  Step-work (stop e) = omega arith
  Step-work (finish front x back e r o) =
      omega (arith, length-remove front x back, ap length e, ap length r)

  -- A run over the items has at most two steps for each.
  pub Steps-ends :
      {n : ℕ} {p q : Pool T R} → Steps fn limit is_cancelled n p q → n + work q ≤ work p
  Steps-ends Steps.nil = omega arith
  Steps-ends (Steps.cons s r) = omega (arith, Step-work s, Steps-ends r)

  -- Whatever is left, the pool can go on to an end.
  pub Steps-to_end :
      0 < limit
      → (todo running : List T) (done : List R)
      → (n : ℕ) × (out : List R) × Steps fn limit is_cancelled n
          (pool todo running done)
          (pool [] [] out)
  Steps-to_end h todo (x ∷ running) done =
      let (n, out, r) = Steps-to_end h todo running (done ++ fn x ∷ []) in
      (suc n, out, Steps.cons (finish [] x running refl refl refl) r)
  Steps-to_end h (x ∷ todo) [] done =
      let (n, out, r) = Steps-to_end h todo [] (done ++ fn x ∷ []) in
      (suc (suc n), out, Steps.cons (start h) (Steps.cons (finish [] x [] refl refl refl) r))
  Steps-to_end h [] [] done = (0, done, Steps.nil)
