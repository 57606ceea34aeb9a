-- ===== src/Errkind/Laws.antt =====
-- Wrapping and classifying errors.
use yk_update_checker.Prelude.{◌≡◌, some, arith, none}
use yk_update_checker.Errkind.{Kind, Failure, wrap, kind_of, as_known}

-- Only the first kind that is attached to an error counts: wrapping once more changes nothing.
pub wrap-wrap : (k l : Kind) (e : Failure) → wrap l (wrap k e) ≡ wrap k e
unfolding wrap as_known
wrap-wrap k l e = ground arith

-- An error that carries a kind keeps it, whatever kind it is wrapped with; any other gets the new
-- kind.
pub kind_of-wrap :
    (k : Kind) (e : Failure) → kind_of (wrap k e) ≡ elim (as_known e) [ some l ↦ l | none ↦ k ]
unfolding wrap kind_of as_known
kind_of-wrap k e = ground arith
