-- ===== src/Registry/Walk.antt =====
-- internal/registry/imagelist.go: the bounded search through the pages of a tag listing.
pub mod Laws
use yk_update_checker.Prelude.{
  List, Option, false, ℕ, if◌then◌else◌, Bool, some, ◌∷◌, none, ◌≡◌, [], take, suc, ◌++◌, true, ◌⊎◌,
  ◌+◌, refl, ◌||◌, inl, ◌==◌, any, ltb, ◌&&◌, ◌-◌, length, inr, zero, not,
}
use yk_update_checker.Errkind.{Failure}
use yk_update_checker.Text.{Text, text_eq, contains, is_digit, has_prefix, codes, is_nil}
use yk_update_checker.Registry.Tag.{classify_tag}
use yk_update_checker.Registry.Candidates.{width_probe, shape_prefix}

-- What the registry answers to one request for a page: an error, or tags and the next cursor (the
-- empty text for none).
pub data Page : Type 0 where
  broken : Failure → Page
  page : List Text → Text → Page

pub record Limits : Type 0 where
  pub tag_page_size : ℕ
  pub max_pages : ℕ
  pub page_budget : ℕ

-- The first listed text that is not empty, each once: `searchAnchors`.
add_anchor : List Text → Text → List Text
unfolding contains
add_anchor out a = if is_nil a || contains out a then out else out ++ a ∷ []

unfoldable pub search_anchors : Text → Text → List Text
unfolding add_anchor
search_anchors cur_tag resolved =
    add_anchor (add_anchor (add_anchor (add_anchor [] cur_tag) resolved) (width_probe cur_tag))
      (width_probe resolved)

-- The ends of the runs of digits, from position `i` on; the flag says that a run is open.
run_ends : ℕ → Bool → Text → List ℕ
run_ends i open_ [] = if open_ then i ∷ [] else []
run_ends i open_ (c ∷ s) =
    let rest = run_ends (i + 1) (is_digit c) s in
    if is_digit c then rest else if open_ then i ∷ rest else rest

-- The end that the anchor is cut at: of two runs the first, of more the third from the end.
rollover_end : List ℕ → Option ℕ
rollover_end [] = none
rollover_end (_ ∷ []) = none
rollover_end (a ∷ _ ∷ []) = some a
rollover_end (a ∷ _ ∷ _ ∷ []) = some a
rollover_end (_ ∷ b ∷ c ∷ d ∷ es) = rollover_end (b ∷ c ∷ d ∷ es)

cut_at : Text → Option ℕ → Text
cut_at tag none = []
cut_at tag (some i) = take i tag

unfoldable pub rollover_probe : Text → Text
unfolding run_ends rollover_end cut_at
rollover_probe tag = cut_at tag (rollover_end (run_ends 0 false tag))

rollover_tests :
    (rollover_probe (codes "v1.9.1") ≡ codes "v1")
    × (rollover_probe (codes "b10689") ≡ [])
    × (rollover_probe (codes "1.24") ≡ codes "1")
    × (rollover_probe (codes "7.1.2-p3") ≡ codes "7.1")
unfolding rollover_probe
rollover_tests = (refl, refl, refl, refl)

-- `sameFamily`
unfoldable pub same_family : List Text → Text → Bool
unfolding has_prefix
same_family tags cur_tag =
    let prefix = shape_prefix (classify_tag cur_tag) in
    if is_nil prefix then true else any (λ t. has_prefix t prefix) tags

-- `tagWalk`, with the requests made so far, the anchor and the cursor of each, the latest first: a log
-- that the source does not keep and no operation reads.
pub record TagWalk : Type 0 where
  pub budget : ℕ
  pub requests : List (Text × Text)
  pub seen : List Text
  pub out : List Text
  pub first_err : Option Failure

unfoldable pub collect : TagWalk → List Text → TagWalk
unfolding contains
collect w [] = w
collect w (t ∷ tags) =
    collect (if contains w.seen t then w else record w { seen = t ∷ w.seen; out = w.out ++ t ∷ [] })
      tags

keep_first : Option Failure → Failure → Option Failure
keep_first none e = some e
keep_first (some d) e = some d

-- The network is a parameter: what a request is answered with may depend on the moment, given by
-- the budget that is left after it.
module _ (limits : Limits) (tags_page : ℕ → Text → Text → Page) where
  -- What the loop does with one answer: it stops with an answer to "complete?", or goes on.
  after_page : Text → TagWalk → Page → (TagWalk × Bool) ⊎ (TagWalk × Text)
  unfolding collect same_family keep_first
  after_page anchor w (broken e) = inl (record w { first_err = keep_first w.first_err e }, false)
  after_page anchor w (page tags cursor) =
      let w' = collect w tags in
      if ltb limits.tag_page_size (length tags)
      then inl (w', true)
      else if is_nil cursor
      then inl (w', ltb (length tags) limits.tag_page_size)
      else if not (same_family tags anchor)
      then inl (w', false)
      else inr (w', cursor)

  resume : (TagWalk × Bool) ⊎ (TagWalk × Text) → (TagWalk → Text → TagWalk × Bool) → TagWalk × Bool
  resume (inl stop) go = stop
  resume (inr (w, cursor)) go = go w cursor

  -- `for page := 0; page < maxPages && w.budget > 0; page++`, with the rounds that are left.
  unfoldable pub walk_pages : ℕ → Text → Text → TagWalk → TagWalk × Bool
  unfolding after_page resume
  walk_pages zero anchor next w = (w, false)
  walk_pages (suc rounds) anchor next w =
      let w' = record w { budget = w.budget - 1; requests = (anchor, next) ∷ w.requests } in
      let rest =
        resume (after_page anchor w' (tags_page w'.budget anchor next))
          (λ w₂ cursor. walk_pages rounds anchor cursor w₂) in
      if w.budget == 0 then (w, false) else rest

  unfoldable pub walk : Text → TagWalk → TagWalk × Bool
  unfolding walk_pages
  walk anchor w = walk_pages limits.max_pages anchor [] w

  -- The state of the two loops of `imageTags`.
  pub record Search : Type 0 where
    pub state : TagWalk
    pub exhaustive : Bool
    pub tried : List Text

  unfoldable pub try_anchor : Search → Text → Search
  unfolding walk contains
  try_anchor z a =
      if is_nil a || contains z.tried a
      then z
      else (let (w, complete) = walk a z.state in
          record { state = w; exhaustive = complete && z.exhaustive; tried = a ∷ z.tried })

  unfoldable pub try_all : Search → List Text → Search
  unfolding try_anchor rollover_probe
  try_all z [] = z
  try_all z (anchor ∷ anchors) =
      try_all (try_anchor (try_anchor z anchor) (rollover_probe anchor)) anchors

  -- `imageTags`, once the client is there
  unfoldable pub image_tags : List Text → Search
  unfolding try_all
  image_tags anchors =
      try_all
        (record {
          state = record {
            budget = limits.page_budget;
            requests = [];
            seen = [];
            out = [];
            first_err = none;
          };
          exhaustive = true;
          tried = [];
        })
        anchors
