-- ===== src/Registry/Image.antt =====
-- internal/registry/image.go: the look-up of an image (lookupImage), around the choice of the newest
-- tag. The metadata of a tag or digest, the search (imageTags), what the verification answers
-- (verifyCandidates, with its note) and the choice by date (newestDatedTag) are parameters here.
pub mod Drift
use yk_update_checker.Errkind.{Failure}
use yk_update_checker.Prelude.{
  none, some, Bool, if◌then◌else◌, List, length, [], ◌||◌, ℕ, not, true, ◌++◌, Option, ◌&&◌, false,
  ◌∷◌,
}
use yk_update_checker.Registry.Cache.{Fetched, value, error}
use yk_update_checker.Registry.Candidates.{ranked_candidates, same_variant}
use yk_update_checker.Registry.Scope.{Scope}
use yk_update_checker.Registry.Tag.{TagKind, TagShape, classify_tag, has_core, floating_tags}
use yk_update_checker.Report.Types.{SkippedTag, Time}
use yk_update_checker.Text.{Text, codes, is_nil, text_eq, has_infix, to_lower, contains}
use yk_update_checker.Text.Decimal.{itoa}

-- `ImageInfo`; an unknown time is `none`.
pub record ImageInfo : Type 0 where
  pub latest : Text
  pub kind : TagKind
  pub resolved : Text
  pub digest : Text
  pub note : Text
  pub skipped : List SkippedTag
  pub current_pushed : Option Time
  pub latest_pushed : Option Time

-- The parts of `imageMeta` that a look-up reads.
pub record TagMeta : Type 0 where
  pub digest : Text
  pub version : Text
  pub children : List Text

-- `imageMeta.serves`
unfoldable pub serves : TagMeta → Text → Bool
unfolding text_eq contains
serves m digest = text_eq digest m.digest || contains m.children digest

-- `joinNotes`
unfoldable pub join_notes : Text → Text → Text
unfolding has_infix
join_notes a b =
    if is_nil a
    then b
    else if is_nil b
    then a
    else if has_infix a b
    then a
    else a ++ codes "; " ++ b

-- `windowedNote`, `exhaustedNote`
unfoldable pub windowed_note : Bool → ℕ → Text
unfolding itoa
windowed_note exhaustive n =
    if exhaustive
    then []
    else codes "compared against " ++ itoa n ++ codes " tags listed around the current one"

unfoldable pub exhausted_note : Bool → ℕ → Text
unfolding itoa
exhausted_note exhaustive n =
    if exhaustive
    then codes "no newer comparable tag found"
    else codes "no newer comparable tag among "
      ++ itoa n
      ++ codes
          " tags listed around the current one; tag listings are capped, so an older listing position can hide a newer version"

-- `variantPeer`
unfoldable pub variant_peer : Text → Text → Bool
unfolding text_eq contains to_lower same_variant
variant_peer cur_tag tag =
    if text_eq tag cur_tag || contains floating_tags (to_lower tag)
    then false
    else contains floating_tags (to_lower cur_tag) || same_variant cur_tag tag

-- What the search, the verification and the dates answer.
pub record Listed : Type 0 where
  pub tags : List Text
  pub exhaustive : Bool
  pub first_err : Option Failure

pub record Verified : Type 0 where
  pub best : Text
  pub skipped : List SkippedTag
  pub note : Text
  pub current_pushed : Option Time
  pub latest_pushed : Option Time

pub record DatedTag : Type 0 where
  pub tag : Text
  pub note : Text

module _ (image_meta : Text → Text → Fetched TagMeta) (listed : Text → TagShape → Listed)
    (verified : TagShape → List TagShape → List Text → Verified) (dated : Text → DatedTag) where
  abbrev pub current_serves : Text → ImageInfo → Text
  current_serves cur_tag info =
      if is_nil info.resolved
      then info.note
      else join_notes info.note
          (codes "tag " ++ cur_tag ++ codes " currently serves " ++ info.resolved)

  -- What `compareVersions` makes of the ranked candidates.
  unfoldable pub compare_ranked :
      Bool → Text → TagShape → Listed → ImageInfo → List TagShape → ImageInfo
  unfolding join_notes windowed_note exhausted_note
  compare_ranked verify cur_tag base l info [] = record info {
    note = join_notes (current_serves cur_tag info) (exhausted_note l.exhaustive (length l.tags));
  }
  compare_ranked verify cur_tag base l info (c ∷ cands) =
      let v = verified base (c ∷ cands) l.tags in
      if verify
      then record info {
        latest = v.best;
        skipped = v.skipped;
        current_pushed = v.current_pushed;
        latest_pushed = v.latest_pushed;
        note = join_notes (windowed_note l.exhaustive (length l.tags)) v.note;
      }
      else record info { latest = c.raw; note = windowed_note l.exhaustive (length l.tags) }

  abbrev pub is_empty : List Text → Bool
  is_empty [] = true
  is_empty (t ∷ tags) = false

  abbrev pub unreachable : Listed → Option Failure
  unreachable l = if is_empty l.tags then l.first_err else none

  abbrev pub or_failed : Option Failure → ImageInfo → Fetched ImageInfo
  or_failed (some e) info = error e
  or_failed none info = value info

  -- `compareVersions`
  unfoldable pub compare_listed :
      Bool → Text → TagShape → Scope → ImageInfo → Listed → Fetched ImageInfo
  unfolding compare_ranked ranked_candidates
  compare_listed verify cur_tag base scope info l =
      or_failed (unreachable l)
        (compare_ranked verify cur_tag base l info (ranked_candidates base l.tags scope))

  -- `resolveMeta`, after the metadata is read: the base to compare from, and the look-up so far.
  unfoldable pub resolve_version : TagShape → ImageInfo → TagMeta → TagShape × ImageInfo
  unfolding classify_tag
  resolve_version base info meta =
      let known = record info { digest = meta.digest } in
      let resolved = classify_tag meta.version in
      if not (has_core resolved.core) then (base, known) else elim (image_meta meta.version []) [
        | error e ↦ (
          base,
          record known {
            note =
                codes "metadata claims version "
                ++ meta.version
                ++ codes ", which this repository has no tag for; ignoring";
          },
        )
        | value m ↦ (resolved, record known { resolved = meta.version; kind = resolved.kind })
      ]

  unfoldable pub resolve_meta : Text → Text → ImageInfo → Fetched (TagShape × ImageInfo)
  unfolding classify_tag resolve_version
  resolve_meta cur_tag pinned info =
      let base = classify_tag cur_tag in
      elim (image_meta (if is_nil cur_tag then codes "latest" else cur_tag) pinned) [
        | error e ↦ if is_nil pinned then error e else value (base, info)
        | value meta ↦ value (resolve_version base info meta)
      ]

  -- `tagDigest`
  unfoldable pub tag_digest : Text → Text → ImageInfo → ImageInfo
  unfolding join_notes serves
  tag_digest cur_tag pinned info = elim (image_meta cur_tag []) [
    | error e ↦ record info {
      note = join_notes info.note (
          codes "tag "
          ++ cur_tag
          ++ codes
              " could not be resolved, so whether it still serves the pinned digest is unknown");
    }
    | value m ↦
        if serves m pinned
        then record info { digest = pinned }
        else record info { digest = m.digest }
  ]

  abbrev pub new_info : TagShape → ImageInfo
  new_info cur = record {
    latest = [];
    kind = cur.kind;
    resolved = [];
    digest = [];
    note = [];
    skipped = [];
    current_pushed = none;
    latest_pushed = none;
  }

  -- The rest of `lookupImage`, from the base on.
  unfoldable pub look_up_from :
      Bool → Text → Text → Scope → TagShape × ImageInfo → Fetched ImageInfo
  unfolding compare_listed tag_digest join_notes
  look_up_from verify cur_tag pinned scope (base, info) =
      let pinned_info =
        if not (is_nil pinned) && not (is_nil cur_tag)
        then tag_digest cur_tag pinned info
        else info in
      if has_core base.core
      then compare_listed verify cur_tag base scope pinned_info (listed cur_tag base)
      else value (record pinned_info {
        latest = (dated cur_tag).tag;
        note = join_notes pinned_info.note (dated cur_tag).note;
      })

  abbrev pub then_look_up :
      Bool → Text → Text → Scope → Fetched (TagShape × ImageInfo) → Fetched ImageInfo
  then_look_up verify cur_tag pinned scope (error e) = error e
  then_look_up verify cur_tag pinned scope (value p) = look_up_from verify cur_tag pinned scope p

  -- `lookupImage`
  unfoldable pub lookup_image : Bool → Text → Text → Scope → Fetched ImageInfo
  unfolding classify_tag resolve_meta look_up_from
  lookup_image verify cur_tag pinned scope =
      let cur = classify_tag cur_tag in
      then_look_up verify cur_tag pinned scope (
        if is_nil cur_tag || not (has_core cur.core) || not (is_nil pinned)
        then resolve_meta cur_tag pinned (new_info cur)
        else value (cur, new_info cur))
