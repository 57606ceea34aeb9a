-- ===== src/Trigger/Process.antt =====
-- internal/trigger/process.go: scans as child processes of the dashboard. Calls of Trigger and the
-- goroutines that wait for a child run side by side, so each write of the flag `running`, which is
-- atomic, and each change of the processes is a step of its own.
use yk_update_checker.Prelude.{ℕ, Bool, true, false, suc, ◌+◌, ◌≡◌, ◌≤◌, arith, refl}

-- The flag; the calls that have set it and not yet started a child; the children that run; the
-- goroutines whose child has ended and that have not yet reset the flag.
pub record Process : Type 0 where
  pub running : Bool
  pub starting : ℕ
  pub children : ℕ
  pub ended : ℕ

-- `NewProcess`
abbrev pub new_process : Process
new_process = record { running = false; starting = 0; children = 0; ended = 0 }

pub data Step : Process → Process → Type 0 where
  -- `CompareAndSwap(false, true)` succeeds, or finds the flag set: `ErrAlreadyRunning`.
  claimed :
      {s c e : ℕ}
      → Step
          record { running = false; starting = s; children = c; ended = e }
          record { running = true; starting = suc s; children = c; ended = e }
  refused :
      {s c e : ℕ}
      → Step
          record { running = true; starting = s; children = c; ended = e }
          record { running = true; starting = s; children = c; ended = e }
  -- `os.Executable` or `cmd.Start` fails, and the flag is reset.
  not_started :
      {r : Bool} {s c e : ℕ}
      → Step
          record { running = r; starting = suc s; children = c; ended = e }
          record { running = false; starting = s; children = c; ended = e }
  started :
      {r : Bool} {s c e : ℕ}
      → Step
          record { running = r; starting = suc s; children = c; ended = e }
          record { running = r; starting = s; children = suc c; ended = e }
  -- `cmd.Wait` returns; then the deferred reset of the flag.
  waited :
      {r : Bool} {s c e : ℕ}
      → Step
          record { running = r; starting = s; children = suc c; ended = e }
          record { running = r; starting = s; children = c; ended = suc e }
  reset :
      {r : Bool} {s c e : ℕ}
      → Step
          record { running = r; starting = s; children = c; ended = suc e }
          record { running = false; starting = s; children = c; ended = e }

pub data Reachable : Process → Type 0 where
  initial : Reachable new_process
  next : {p q : Process} → Reachable p → Step p q → Reachable q

-- The processes that the flag stands for.
abbrev counted : Process → ℕ
counted p = p.starting + p.children + p.ended

abbrev flagged : Bool → ℕ
flagged true = 1
flagged false = 0

Step-flagged :
    {p q : Process} → Step p q → counted p ≡ flagged p.running → counted q ≡ flagged q.running
Step-flagged claimed h = omega (arith, h)
Step-flagged refused h = h
Step-flagged (not_started {r}) h = ground (arith, h)
Step-flagged (started {r}) h = ground (arith, h)
Step-flagged (waited {r}) h = ground (arith, h)
Step-flagged (reset {r}) h = ground (arith, h)

Reachable-flagged : {p : Process} → Reachable p → counted p ≡ flagged p.running
Reachable-flagged initial = omega arith
Reachable-flagged (next r s) = Step-flagged s (Reachable-flagged r)

at_most_one : (r : Bool) (s c e : ℕ) → s + c + e ≡ flagged r → (c ≤ 1) × (1 ≤ c → r ≡ true)
at_most_one true s c e h = (omega (arith, h), λ k. refl)
at_most_one false s c e h = (omega (arith, h), λ k. absurd (omega (arith, h, k)))

-- However the calls of Trigger and the ends of their children interleave, at most one child runs at
-- a time, and `Running` answers true while one does.
pub Reachable_exclusive :
    {p : Process} → Reachable p → (p.children ≤ 1) × (1 ≤ p.children → p.running ≡ true)
Reachable_exclusive {p} r =
    at_most_one p.running p.starting p.children p.ended (Reachable-flagged r)
