-- ===== src/Report/Writer/Follow.antt =====
-- What a reference's record remembers over a series of scans.
use yk_update_checker.Prelude.{
  List, ◌≡◌, some, true, arith, none, refl, Option-cases, All, ◌∷◌, inl, inr, [],
}
use yk_update_checker.Text.{Text, text_eq_refl}
use yk_update_checker.Named.{find, put, find-put}
use yk_update_checker.Report.Types.{Time, ScanResult, Dependency, dependency_name}
use yk_update_checker.Report.Store.{dep_name}
use yk_update_checker.Report.Writer.{Writer, next, next_status}

module _ (short_hash : Text → Text) (w : Writer) (id : Text) where
  -- One reference over several scans: each scan's record is stored and is there for the next.
  unfoldable pub follow : List Dependency → List (ScanResult × Time) → List Dependency
  unfolding next
  follow old [] = old
  follow old ((r, t) ∷ scans) = follow (put dep_name (next short_hash w id old t r) old) scans

  -- The reference `n` is behind in the record that is stored, since `t`.
  abbrev pub IsBehindSince : Text → Time → List Dependency → Type 0
  IsBehindSince n t old =
      (d : Dependency) × (find dep_name n old ≡ some d) × (d.status.outdated_since ≡ some t)

  -- Nothing is stored under the name, or what is stored is not behind.
  abbrev pub IsNotBehind : Text → List Dependency → Type 0
  IsNotBehind n old =
      (d : Dependency) → find dep_name n old ≡ some d → d.status.outdated_since ≡ none

  abbrev pub FindsBehind : Text → ScanResult × Time → Type 0
  FindsBehind n (r, t) = (dependency_name short_hash r ≡ n) × (r.update_available ≡ true)

  find-next :
      (old : List Dependency) (t : Time) (r : ScanResult)
      → find dep_name
          (dependency_name short_hash r)
          (put dep_name (next short_hash w id old t r) old)
        ≡ some (next short_hash w id old t r)
  unfolding next
  find-next old t r = rw (find-put dep_name, text_eq_refl (dependency_name short_hash r)) refl

  next_behind :
      (old : List Dependency) (t : Time) (r : ScanResult)
      → r.update_available ≡ true
      → IsNotBehind (dependency_name short_hash r) old
      → (next short_hash w id old t r).status.outdated_since ≡ some t
  unfolding next next_status
  next_behind old t r a h = elim (Option-cases (find dep_name (dependency_name short_hash r) old)) [
    | inl e ↦ ground arith
    | inr (d, e) ↦ ground (arith, h d e)
  ]

  next_still_behind :
      (old : List Dependency) (since t : Time) (r : ScanResult)
      → r.update_available ≡ true
      → IsBehindSince (dependency_name short_hash r) since old
      → (next short_hash w id old t r).status.outdated_since ≡ some since
  unfolding next next_status
  next_still_behind old since t r a (d, f, e) = ground arith

  behind_one :
      (old : List Dependency) (since t : Time) (r : ScanResult) (n : Text)
      → FindsBehind n (r, t)
      → (next short_hash w id old t r).status.outdated_since ≡ some since
      → IsBehindSince n since (put dep_name (next short_hash w id old t r) old)
  behind_one old since t r n (same, a) e =
      (next short_hash w id old t r, rw (← same) (find-next old t r), e)

  follow_behind :
      (scans : List (ScanResult × Time)) (old : List Dependency) (since : Time) (n : Text)
      → All (FindsBehind n) scans
      → IsBehindSince n since old
      → IsBehindSince n since (follow old scans)
  unfolding follow
  follow_behind [] old since n h b = b
  follow_behind ((r, t) ∷ scans) old since n (f, h) b =
      follow_behind scans (put dep_name (next short_hash w id old t r) old) since n h
        (behind_one old since t r n f (next_still_behind old since t r f.1 (rw f.0 b)))

  -- Over scans that all find a reference behind, its record says "behind since" the first of them,
  -- if the record before them, where there is one, did not say that it was behind.
  pub follow-outdated_since :
      (scans : List (ScanResult × Time)) (old : List Dependency) (r : ScanResult) (t : Time)
      (n : Text)
      → IsNotBehind n old
      → FindsBehind n (r, t)
      → All (FindsBehind n) scans
      → IsBehindSince n t (follow old ((r, t) ∷ scans))
  unfolding follow
  follow-outdated_since scans old r t n fresh f h =
      follow_behind scans (put dep_name (next short_hash w id old t r) old) t n h
        (behind_one old t t r n f (next_behind old t r f.1 (rw f.0 fresh)))
