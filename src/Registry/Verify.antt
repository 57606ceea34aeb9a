-- ===== src/Registry/Verify.antt =====
-- internal/registry/imageverify.go: whether a tag that outranks the current one is a release. The
-- texts of the reasons are constructors here, and the notes made of them are left out. What the
-- registry answers is a parameter: image metadata, an extra page of siblings, and signatures.
pub mod Laws
use yk_update_checker.Prelude.{
  List, Option, Bool, ℕ, [], keep, some, none, if◌then◌else◌, ◌∷◌, false, true, not, ltb, ◌+◌, ◌&&◌,
  take, ◌++◌, ◌-◌, ◌==◌, leb, length, ◌||◌, map, any, all,
}
use yk_update_checker.Text.{Text, codes, text_eq, contains, has_prefix, is_nil}
use yk_update_checker.Registry.Tag.{
  TagShape, TagKind, kind_eq, semver, date, opaque, classify_tag, has_core,
}
use yk_update_checker.Registry.Order.{group, is_prerelease}

-- `tagInfo`: what a vendor API says of a tag. A time is a number of seconds.
pub record TagInfo : Type 0 where
  pub digest : Text
  pub has_date : Bool
  pub pushed : ℕ
  pub size : ℕ

-- The parts of `imageMeta` that verification reads.
pub record ImageMeta : Type 0 where
  pub digest : Text
  pub version : Text
  pub is_index : Bool
  pub platforms : List Text

abbrev pub no_meta : ImageMeta
no_meta = record { digest = []; version = []; is_index = false; platforms = [] }

-- `multiArch`
abbrev multi_arch : ImageMeta → Bool
multi_arch m = m.is_index && ltb 1 (length m.platforms)

pub data Reason : Type 0 where
  pushed_before : (cand cur : ℕ) → Reason
  claims_version : Text → Reason
  no_siblings : Reason
  skips_majors : (from to : ℕ) → Reason
  single_arch : Reason
  covers_only : List Text → Reason
  alias_of : Text → Reason
  also_tagged : Text → Reason
  same_digest_as : List Text → Reason
  unsigned : Reason

-- `verifyBaseline`; `meta` is empty where the metadata could not be read.
pub record Baseline : Type 0 where
  pub cur : TagShape
  pub meta : ImageMeta
  pub dates : List (Text × TagInfo)
  pub signed : Option Bool

unfoldable pub info_of : List (Text × TagInfo) → Text → Option TagInfo
unfolding text_eq
info_of [] tag = none
info_of ((t, i) ∷ dates) tag = if text_eq t tag then some i else info_of dates tag

-- `strings.TrimPrefix(s, "v")`
abbrev trim_v : Text → Text
trim_v [] = []
trim_v (c ∷ s) = if c == b'v' then s else c ∷ s

-- 1. The push date
dated : Option TagInfo → Option ℕ
dated none = none
dated (some i) = if i.has_date then some i.pushed else none

pushed_too_early : ℕ → Option ℕ → Option ℕ → List Reason
pushed_too_early gap (some cand) (some cur) =
    if ltb gap (cur - cand) then pushed_before cand cur ∷ [] else []
pushed_too_early gap _ _ = []

push_signal : ℕ → Baseline → Text → List Reason
unfolding info_of dated pushed_too_early
push_signal gap bl tag =
    pushed_too_early gap (dated (info_of bl.dates tag)) (dated (info_of bl.dates bl.cur.raw))

-- 2. The version label
label_signal : Baseline → TagShape → List Text → ImageMeta → List Reason
unfolding text_eq contains
label_signal bl cand tags meta =
    let label = trim_v meta.version in
    if not (is_nil label)
      && not (text_eq label (trim_v cand.raw))
      && (text_eq label (trim_v bl.cur.raw) || contains tags label)
    then claims_version meta.version ∷ []
    else []

-- `sameSeries`, `siblingsOf`
unfoldable pub same_series : TagShape → TagShape → Bool
unfolding kind_eq text_eq
same_series t cand = kind_eq t.kind cand.kind && text_eq t.pre cand.pre && has_core t.core

is_sibling : TagShape → Text → Bool
unfolding has_prefix same_series
is_sibling cand raw =
    if text_eq raw cand.raw
    then false
    else if has_prefix raw (cand.raw ++ codes "-")
    then true
    else same_series (classify_tag raw) cand
      && (length cand.core == 1 || group (classify_tag raw).core 0 == group cand.core 0)

unfoldable pub siblings_of : TagShape → List Text → List Text
unfolding is_sibling
siblings_of cand tags = keep (is_sibling cand) tags

-- 4. `majorJump`; the majors skipped, from and to
in_gap : TagShape → ℕ → ℕ → Text → Bool
unfolding same_series
in_gap cand from to raw =
    same_series (classify_tag raw) cand
    && leb from (group (classify_tag raw).core 0)
    && leb (group (classify_tag raw).core 0) to

unfoldable pub major_jump : TagShape → TagShape → List Text → Option (ℕ × ℕ)
unfolding in_gap kind_eq
major_jump cur cand tags =
    let from = group cur.core 0 + 1 in
    let to = group cand.core 0 - 1 in
    if not (kind_eq cur.kind semver) || ltb (length cur.core) 2 || ltb (length cand.core) 2
    then none
    else if ltb to from
    then none
    else if any (in_gap cand from to) tags
    then none
    else some (from, to)

jump_signal : Option (ℕ × ℕ) → List Reason
jump_signal none = []
jump_signal (some (from, to)) = skips_majors from to ∷ []

-- 5. The shape of the manifest; `strictSubset`
unfoldable pub strict_subset : List Text → List Text → Bool
unfolding contains
strict_subset super sub =
    if length sub == 0 || leb (length super) (length sub) then false else all (contains super) sub

arch_signal : Baseline → ImageMeta → List Reason
unfolding strict_subset
arch_signal bl meta =
    if not (multi_arch bl.meta)
    then []
    else if not meta.is_index
    then single_arch ∷ []
    else if strict_subset bl.meta.platforms meta.platforms
    then covers_only meta.platforms ∷ []
    else []

-- 6. Aliases: other tags of the same digest, in the order of their bytes
text_le : Text → Text → Bool
text_le [] t = true
text_le (c ∷ s) [] = false
text_le (c ∷ s) (d ∷ t) = if c == d then text_le s t else ltb c d

insert_text : Text → List Text → List Text
unfolding text_le
insert_text t [] = t ∷ []
insert_text t (u ∷ us) = if text_le t u then t ∷ u ∷ us else u ∷ insert_text t us

unfoldable pub aliases : List (Text × TagInfo) → Text → Text → List Text
unfolding insert_text text_eq
aliases [] digest except = []
aliases ((tag, info) ∷ dates) digest except =
    let rest = aliases dates digest except in
    if text_eq tag except || is_nil info.digest || not (text_eq info.digest digest)
    then rest
    else insert_text tag rest

-- `ownPreRelease`
groups_match : List ℕ → ℕ → List ℕ → Bool
groups_match core i [] = true
groups_match core i (g ∷ gs) = group core i == g && groups_match core (i + 1) gs

unfoldable pub own_pre_release : TagShape → TagShape → Bool
unfolding groups_match
own_pre_release other cand =
    if not (is_prerelease other)
      || not (has_core other.core)
      || ltb (length other.core) (length cand.core)
    then false
    else groups_match other.core 0 cand.core

alias_hard : TagShape → List Text → List Reason
unfolding own_pre_release
alias_hard cand [] = []
alias_hard cand (other ∷ others) =
    let rest = alias_hard cand others in
    if own_pre_release (classify_tag other) cand then also_tagged other ∷ rest else rest

is_stray : TagShape → Text → Bool
unfolding own_pre_release kind_eq
is_stray cand other =
    let shape = classify_tag other in
    not (own_pre_release shape cand)
    && (kind_eq shape.kind date || kind_eq shape.kind opaque || is_prerelease shape)

stray_signal : List Text → List Reason
stray_signal [] = []
stray_signal (t ∷ ts) = same_digest_as (t ∷ ts) ∷ []

-- 7. Signatures
unsigned_signal : Option Bool → Option Bool → List Reason
unsigned_signal (some true) (some false) = unsigned ∷ []
unsigned_signal _ _ = []

pub record Signals : Type 0 where
  pub hard : List Reason
  pub soft : List Reason
  pub info : List Reason

-- The signals that need the candidate's metadata.
abbrev on_meta : Option ImageMeta → (ImageMeta → List Reason) → List Reason
on_meta none f = []
on_meta (some m) f = f m

abbrev meta_or_empty : Option ImageMeta → ImageMeta
meta_or_empty none = no_meta
meta_or_empty (some m) = m

sibling_signal : List Text → List Text → List Reason
sibling_signal [] [] = no_siblings ∷ []
sibling_signal _ _ = []

-- The digest "" has no aliases.
abbrev aliases_of : Baseline → Text → Text → List Text
aliases_of bl digest except = if is_nil digest then [] else aliases bl.dates digest except

unfoldable pub rejects : Signals → Bool
rejects s = ltb 0 (length s.hard) || leb 2 (length s.soft)

pub record Skipped : Type 0 where
  pub tag : Text
  pub reasons : List Reason

module _ (gap : ℕ) (image_meta : Text → Option ImageMeta) (sibling_page : TagShape → List Text)
    (has_signatures : Text → Option Bool) where
  -- `candidateSignals`
  unfoldable pub candidate_signals : Baseline → List Text → TagShape → Signals
  unfolding push_signal label_signal siblings_of sibling_signal major_jump jump_signal arch_signal
      aliases alias_hard is_stray stray_signal unsigned_signal
  candidate_signals bl tags cand =
      let found = image_meta cand.raw in
      let others = aliases_of bl (meta_or_empty found).digest cand.raw in
      record {
        hard = on_meta found (label_signal bl cand tags) ++ alias_hard cand others;
        soft =
            push_signal gap bl cand.raw
            ++ sibling_signal (siblings_of cand tags) (siblings_of cand (sibling_page cand))
            ++ jump_signal (major_jump bl.cur cand tags)
            ++ on_meta found (arch_signal bl)
            ++ stray_signal (keep (is_stray cand) others)
            ++ on_meta found (λ m. unsigned_signal bl.signed (has_signatures m.digest));
        info = map alias_of others;
      }

  abbrev pub report : Baseline → List Text → TagShape → Skipped
  report bl tags cand =
      let s = candidate_signals bl tags cand in
      record { tag = cand.raw; reasons = s.hard ++ s.soft }

  -- The loop over the candidates, with those rejected so far.
  unfoldable pub first_kept :
      Baseline → List Text → List Skipped → List TagShape → Option Text × List Skipped
  unfolding candidate_signals rejects
  first_kept bl tags skipped [] = (none, skipped)
  first_kept bl tags skipped (cand ∷ cands) =
      let rest = first_kept bl tags (skipped ++ report bl tags cand ∷ []) cands in
      if rejects (candidate_signals bl tags cand) then rest else (some cand.raw, skipped)

  -- `verifyCandidates`: at most `limit` candidates are looked at.
  unfoldable pub verify_candidates :
      ℕ → Baseline → List Text → List TagShape → Option Text × List Skipped
  unfolding first_kept
  verify_candidates limit bl tags ranked = first_kept bl tags [] (take limit ranked)
