-- ===== src/Extractor/Dockerfile.antt =====
-- internal/extractor/dockerfile.go: the base images of container builds.
pub mod Stages
pub mod Final
use yk_update_checker.Registry.Tag.{has_code}
use yk_update_checker.Text.Cut.{drop, trim_suffix, has_suffix}
use yk_update_checker.Extractor.Ref.{Ref, protocol_image}
use yk_update_checker.Prelude.{
  Bool, List, ℕ, Option, if◌then◌else◌, ◌==◌, ◌∷◌, ◌++◌, [], none, false, not, ◌+◌, ◌||◌, ◌&&◌,
  some, take,
}
use yk_update_checker.Extractor.Paths.{base_name}
use yk_update_checker.Extractor.ImageRef.{parse_image_ref, ImageRef}
use yk_update_checker.Text.Decimal.{itoa}
use yk_update_checker.Text.{
  Text, text_eq, has_prefix, to_lower, split, fields, contains, span, codes, is_nil, trim_left,
  is_space, trim,
}

-- `strings.ReplaceAll` of "\r\n" by "\n"
starts_with : ℕ → Text → Bool
starts_with b [] = false
starts_with b (c ∷ s) = c == b

unfoldable pub unix_lines : Text → Text
unfolding starts_with
unix_lines [] = []
unix_lines (c ∷ s) =
    let rest = unix_lines s in if c == 13 && starts_with 10 s then rest else c ∷ rest

-- The loop of `splitLogicalLines`, with the line that is continued.
unfoldable pub join_lines : Text → List Text → List Text
unfolding span has_prefix drop starts_with
join_lines cur [] = if is_nil cur then [] else cur ∷ []
join_lines cur (line ∷ lines) =
    let trimmed = trim is_space line in
    let skipped = join_lines cur lines in
    let continued = join_lines (cur ++ trim_suffix trimmed (codes "\\") ++ codes " ") lines in
    let ended = (cur ++ trimmed) ∷ join_lines [] lines in
    if is_nil trimmed || starts_with b'#' trimmed
    then skipped
    else if has_suffix trimmed (codes "\\")
    then continued
    else ended

unfoldable pub split_logical_lines : Text → List Text
unfolding unix_lines join_lines split
split_logical_lines content = join_lines [] (split 10 (unix_lines content))

-- `fromLine`, `(?i)^\s*from\s+(.*)$`: what follows the instruction. A line holds no newline.
abbrev is_pattern_space : ℕ → Bool
is_pattern_space c = c == 9 || c == 10 || c == 12 || c == 13 || c == 32

after_space : Text → Option Text
after_space [] = none
after_space (c ∷ s) = if is_pattern_space c then some (trim_left is_pattern_space s) else none

unfoldable pub from_arguments : Text → Option Text
unfolding span text_eq to_lower drop after_space
from_arguments raw =
    let s = trim_left is_pattern_space raw in
    if text_eq (to_lower (take 4 s)) (codes "from") then after_space (drop 4 s) else none

-- `buildStage`
pub record BuildStage : Type 0 where
  pub image : Text
  pub alias : Text
  pub alias_of_earlier : Bool

-- The loop over the words of one instruction, with the image and the alias found.
abbrev is_flag : Text → Bool
is_flag word = has_prefix word (codes "--")

unfoldable pub from_words : Text → Text → List Text → Text × Text
unfolding has_prefix to_lower text_eq
from_words image alias [] = (image, alias)
from_words image alias (f ∷ []) =
    (if is_flag f then image else if is_nil image then f else image, alias)
from_words image alias (f ∷ g ∷ words) =
    let flag = from_words image alias (g ∷ words) in
    let named = from_words image g words in
    let found = from_words (if is_nil image then f else image) alias (g ∷ words) in
    if is_flag f then flag else if text_eq (to_lower f) (codes "as") then named else found

unfoldable pub stage_of : List Text → Text × Text → BuildStage
unfolding contains to_lower
stage_of seen (image, alias) = record {
  image = if has_code b'$' image then [] else image;
  alias = alias;
  alias_of_earlier = not (is_nil image) && contains seen (to_lower image);
}

-- The set `aliasOf` after a stage.
unfoldable pub note_alias : List Text → Text → List Text
unfolding to_lower
note_alias seen alias = if is_nil alias then seen else to_lower alias ∷ seen

-- The loop of `parseFroms` over the lines.
unfoldable pub stages_of : List Text → List Text → List BuildStage
unfolding from_arguments from_words stage_of note_alias fields
stages_of seen [] = []
stages_of seen (raw ∷ lines) = elim (from_arguments raw) [
  | none ↦ stages_of seen lines
  | some args ↦
      let words = from_words [] [] (fields is_space args) in
      stage_of seen words ∷ stages_of (note_alias seen words.1) lines
]

unfoldable pub parse_froms : Text → List BuildStage
unfolding split_logical_lines stages_of
parse_froms content = stages_of [] (split_logical_lines content)

-- `checkable`
unfoldable pub checkable : BuildStage → Bool
unfolding text_eq
checkable st =
    not (is_nil st.image) && not (text_eq st.image (codes "scratch")) && not st.alias_of_earlier

-- The index of the last stage that is checkable, from index `i` on.
unfoldable pub final_stage_from : ℕ → Option ℕ → List BuildStage → Option ℕ
unfolding checkable
final_stage_from i found [] = found
final_stage_from i found (st ∷ sts) =
    final_stage_from (i + 1) (if checkable st then some i else found) sts

abbrev is_at : ℕ → Option ℕ → Bool
is_at i none = false
is_at i (some j) = i == j

unfoldable pub stage_label : Text → ℕ → BuildStage → Text
unfolding itoa
stage_label base i st =
    base ++ codes "/" ++ (if is_nil st.alias then codes "stage" ++ itoa (i + 1) else st.alias)

unfoldable pub stage_ref : Text → Option ℕ → ℕ → BuildStage → Option ImageRef → List Ref
unfolding stage_label
stage_ref base final i st none = []
stage_ref base final i st (some r) =
    record {
      chart = stage_label base i st;
      name = r.name;
      protocol = protocol_image;
      repository = r.repository;
      current_version = r.tag;
      digest = r.digest;
      kind = [];
      final_stage = is_at i final;
    }
    ∷ []

-- The body of the second loop of `Extract`
unfoldable pub checked_ref : Text → Option ℕ → ℕ → BuildStage → List Ref
unfolding checkable stage_ref parse_image_ref
checked_ref base final i st =
    if checkable st then stage_ref base final i st (parse_image_ref st.image) else []

-- The second loop of `Extract`
unfoldable pub stage_refs : Text → Option ℕ → ℕ → List BuildStage → List Ref
unfolding checked_ref
stage_refs base final i [] = []
stage_refs base final i (st ∷ sts) =
    checked_ref base final i st ++ stage_refs base final (i + 1) sts

-- `Dockerfile.Extract`
unfoldable pub extract_dockerfile : Text → Text → List Ref
unfolding parse_froms final_stage_from stage_refs base_name
extract_dockerfile path content =
    let stages = parse_froms content in
    stage_refs (base_name path) (final_stage_from 0 none stages) 0 stages
