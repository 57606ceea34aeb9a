-- ===== src/Scan/Checks/Labels.antt =====
-- internal/scan/runner.go: the label of a build's reference.
use mathlib.Core.List.{append_assoc}
use yk_update_checker.Prelude.{◌++◌, ◌≡◌, false, inl, ◌∷◌, inr, ◌⊎◌, [], refl}
use yk_update_checker.Scan.Checks.{PendingCheck, label}
use yk_update_checker.Text.{Text, codes, is_nil, text_eq}
use yk_update_checker.Text.Cut.{has_code, cut_last-append, cut_last-none}

-- A file of this base name, in a directory or not.
abbrev pub IsFile : Text → Text → Type 0
IsFile base path =
    (has_code b'/' base ≡ false) × ((path ≡ base) ⊎ ((dir : Text) × (path ≡ dir ++ b'/' ∷ base)))

named_stage : (base stage : Text) → is_nil (base ++ codes "/" ++ stage) ≡ false
named_stage [] stage = refl
named_stage (c ∷ base) stage = refl

-- A reference that a build file labels with the file's base name and a stage is labelled, in the
-- results, with the path of the file in the repository and the stage.
pub label-dockerfile :
    (p : PendingCheck) (base stage : Text)
    → p.ex_type ≡ codes "dockerfile"
    → p.ref.chart ≡ base ++ codes "/" ++ stage
    → IsFile base p.path
    → label p ≡ p.path ++ codes "/" ++ stage
unfolding label text_eq
label-dockerfile p base stage t c (n, inl e) =
    rw (c, named_stage base stage, t, e, cut_last-none b'/' base n) refl
label-dockerfile p base stage t c (n, inr (dir, e)) =
    rw (c, named_stage base stage, t, e, cut_last-append b'/' dir base n) (simp append_assoc)
