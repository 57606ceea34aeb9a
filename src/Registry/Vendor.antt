-- ===== src/Registry/Vendor.antt =====
-- internal/registry/vendor.go: what the tag APIs of vendors say of tags. What a server answers to a
-- request is a parameter; go-containerregistry, which reads repository names, is another.
pub mod Path
pub mod Json
pub mod Types
pub mod Dates
pub mod Wanted
pub mod Escape
pub mod Policy
pub mod AuthFile
pub mod Login
use yk_update_checker.Prelude.{
  none, some, [], Option, List, ◌∷◌, ℕ, if◌then◌else◌, Bool, ◌++◌, suc, false, true, ◌==◌, zero,
  ◌+◌, not, ◌||◌, ltb, length,
}
use yk_update_checker.Prelude.Int.{ℤ, pos, negsuc}
use yk_update_checker.Errkind.{Failure, plain}
use yk_update_checker.Text.{Text, codes, text_eq, is_nil, contains}
use yk_update_checker.Text.Cut.{cut}
use yk_update_checker.Text.Decimal.{itoa}
use yk_update_checker.Registry.Cache.{Fetched, value, error, get_or_do}
use yk_update_checker.Registry.Verify.{TagInfo, info_of}
use yk_update_checker.Registry.Vendor.Path.{path_escape, query_escape, esc_path, harbor_repo_path}
use yk_update_checker.Registry.Vendor.Types.{
  Infos, HubTag, QuayTag, QuayPage, HarborArtifact, add_hub, add_quay, add_harbor, hub_info,
  quay_info, harbor_info,
}
use yk_update_checker.Registry.Vendor.Json.{Reply, get_json}

-- The limits that the requests mention.
pub record VendorLimits : Type 0 where
  pub json_bytes : ℕ
  pub vendor_tag_page_size : ℕ
  pub quay_listing_pages : ℕ
  pub hub_harbor_page_size : ℕ

-- The servers' answers, by URL; Harbor's by the credentials sent, too.
pub record Servers : Type 0 where
  pub hub_tags : Text → Reply (List HubTag)
  pub hub_tag : Text → Reply HubTag
  pub quay_page : Text → Reply QuayPage
  pub harbor_artifacts : Text → Option (Text × Text) → Reply (List HarborArtifact)
  pub harbor_artifact : Text → Option (Text × Text) → Reply HarborArtifact
  pub credentials : Text → Option (Text × Text)

abbrev and_fetched : {V W : Type 0} → Fetched V → (V → Fetched W) → Fetched W
and_fetched (error e) f = error e
and_fetched (value v) f = f v

module _ (limits : VendorLimits) (servers : Servers) where
  abbrev hub_url : Text → Text → Text
  hub_url base path = base ++ (codes "/v2/repositories/" ++ (esc_path path ++ codes "/tags"))

  -- `dockerHub.listing`
  unfoldable pub hub_listing : Text → Text → Fetched Infos
  hub_listing base path =
      let u =
        hub_url base path
        ++ (codes "?page_size="
            ++ (itoa limits.hub_harbor_page_size ++ codes "&ordering=last_updated")) in
      and_fetched (get_json limits.json_bytes u (servers.hub_tags u))
        (λ tags. value (add_hub tags []))

  -- `dockerHub.tag`
  unfoldable pub hub_tag_info : Text → Text → Text → Fetched TagInfo
  hub_tag_info base path tag =
      let u = hub_url base path ++ (b'/' ∷ path_escape tag) in
      and_fetched (get_json limits.json_bytes u (servers.hub_tag u)) (λ t. value (hub_info t))

  abbrev pub quay_url : Text → Text → Text
  quay_url base path = base ++ (codes "/api/v1/repository/" ++ (esc_path path ++ codes "/tag/"))

  abbrev pub quay_page_url : Text → Text → ℕ → Text
  quay_page_url base path page =
      quay_url base path
      ++ (codes "?limit=" ++ (itoa limits.vendor_tag_page_size ++ (codes "&page=" ++ itoa page)))

  -- The loop of `quay.listing` from a page on, with the pages left to ask for.
  unfoldable pub quay_pages : Text → Text → ℕ → ℕ → Infos → Fetched Infos
  quay_pages base path zero page out = value out
  quay_pages base path (suc left) page out =
      let u = quay_page_url base path page in
      elim (get_json limits.json_bytes u (servers.quay_page u)) [
        | error e ↦ if page == 1 then error e else value out
        | value body ↦
            let more = quay_pages base path left (page + 1) (add_quay body.tags out) in
            if not body.has_additional || ltb (length body.tags) 1
            then value (add_quay body.tags out)
            else more
      ]

  -- `quay.listing`
  unfoldable pub quay_listing : Text → Text → Fetched Infos
  unfolding quay_pages
  quay_listing base path = quay_pages base path limits.quay_listing_pages 1 []

  find_quay : Text → List QuayTag → Option TagInfo
  unfolding text_eq
  find_quay tag [] = none
  find_quay tag (t ∷ ts) = if text_eq t.name tag then some (quay_info t) else find_quay tag ts

  -- `quay.tag`
  unfoldable pub quay_tag_info : Text → Text → Text → Fetched TagInfo
  unfolding find_quay
  quay_tag_info base path tag =
      let u = quay_url base path ++ (codes "?specificTag=" ++ query_escape tag) in
      and_fetched (get_json limits.json_bytes u (servers.quay_page u)) (λ body.
        elim (find_quay tag body.tags) [
          | some info ↦ value info
          | none ↦ error (plain (base ++ (codes " has no tag " ++ (tag ++ (codes " in " ++ path)))))
        ])

  abbrev harbor_url : Text → Text → Text → Text
  harbor_url base project repo =
      base
      ++ (codes "/api/v2.0/projects/"
          ++ (path_escape project
              ++ (codes "/repositories/" ++ (harbor_repo_path repo ++ codes "/artifacts"))))

  harbor_listing_at : Text → Text × Option Text → Fetched Infos
  harbor_listing_at base (project, none) = value []
  harbor_listing_at base (project, some repo) =
      let u =
        harbor_url base project repo
        ++ (codes "?page_size="
            ++ (itoa limits.hub_harbor_page_size ++ codes "&sort=-push_time")) in
      and_fetched
        (get_json limits.json_bytes u (servers.harbor_artifacts u (servers.credentials base)))
        (λ artifacts. value (add_harbor artifacts []))

  -- `harbor.listing`
  unfoldable pub harbor_listing : Text → Text → Fetched Infos
  unfolding harbor_listing_at
  harbor_listing base path = harbor_listing_at base (cut b'/' path)

  harbor_tag_at : Text → Text → Text → Text × Option Text → Fetched TagInfo
  harbor_tag_at base path tag (project, none) =
      error (plain (base ++ (codes ": no Harbor project in " ++ path)))
  harbor_tag_at base path tag (project, some repo) =
      let u = harbor_url base project repo ++ (b'/' ∷ path_escape tag) in
      and_fetched
        (get_json limits.json_bytes u (servers.harbor_artifact u (servers.credentials base)))
        (λ a. value (harbor_info a))

  -- `harbor.tag`
  unfoldable pub harbor_tag_info : Text → Text → Text → Fetched TagInfo
  unfolding harbor_tag_at
  harbor_tag_info base path tag = harbor_tag_at base path tag (cut b'/' path)
