-- ===== src/Extractor/Ref.antt =====
-- internal/extractor/extractor.go: one pinned dependency reference.
use yk_update_checker.Prelude.{Bool}
use yk_update_checker.Text.{Text, codes}

-- `Ref`
pub record Ref : Type 0 where
  pub name : Text
  pub chart : Text
  pub protocol : Text
  pub repository : Text
  pub current_version : Text
  pub digest : Text
  pub kind : Text
  pub final_stage : Bool

abbrev pub protocol_image : Text
protocol_image = codes "image"
