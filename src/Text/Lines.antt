-- ===== src/Text/Lines.antt =====
-- Lines that are written with a newline each and split again.
use yk_update_checker.Text.Joined.{split_from-append}
use mathlib.Core.List.{append_assoc}
use yk_update_checker.Prelude.{◌≡◌, List, ◌++◌, false, All, ◌∷◌, ap, [], sym, ◌∙◌, refl}
use yk_update_checker.Text.{Text, split, split_from}
use yk_update_checker.Text.Cut.{has_code}

-- Each line with its newline.
abbrev pub lines_text : List Text → Text
lines_text [] = []
lines_text (line ∷ lines) = line ++ 10 ∷ lines_text lines

-- The lines, and the empty text behind the last newline.
pub split-lines_text :
    (lines : List Text)
    → All (λ line. has_code 10 line ≡ false) lines
    → split 10 (lines_text lines) ≡ lines ++ [] ∷ []
unfolding split split_from
split-lines_text [] h = refl
split-lines_text (line ∷ lines) (p, h) =
    split_from-append 10 [] line (lines_text lines) p
    ∙ ap (λ ls. line ∷ ls) (split-lines_text lines h)

pub lines_text-append :
    (front back : List Text) → lines_text (front ++ back) ≡ lines_text front ++ lines_text back
lines_text-append [] back = refl
lines_text-append (line ∷ front) back =
    ap (λ s. line ++ 10 ∷ s) (lines_text-append front back)
    ∙ sym (append_assoc line (10 ∷ lines_text front) (lines_text back))
