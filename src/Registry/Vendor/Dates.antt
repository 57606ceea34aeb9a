-- ===== src/Registry/Vendor/Dates.antt =====
-- internal/registry/vendor.go: the dates of a repository's tags, one listing and a query for each
-- wanted tag that it lacks, both memoized.
use yk_update_checker.Prelude.{
  none, some, Bool, List, not, [], Option, ◌∷◌, ◌++◌, true, false, ltb, length,
}
use yk_update_checker.Errkind.{plain}
use yk_update_checker.Text.{Text, codes}
use yk_update_checker.Registry.Cache.{Fetched, value, error, get_or_do}
use yk_update_checker.Registry.Verify.{TagInfo, info_of}
use yk_update_checker.Registry.Vendor.Types.{
  ApiKind, api_none, api_docker, api_quay, api_harbor, VendorApi, Repository, Target, Infos,
  known_api, vendor_api_for,
}
use yk_update_checker.Registry.Vendor.{
  VendorLimits, Servers, and_fetched, hub_listing, quay_listing, harbor_listing, hub_tag_info,
  quay_tag_info, harbor_tag_info,
}

-- `tagDates`
pub record TagDates : Type 0 where
  pub infos : Infos
  pub ok : Bool

-- The two stores of the cache.
pub record Memo : Type 0 where
  pub img_dates : List (Text × Fetched TagDates)
  pub img_infos : List (Text × Fetched TagInfo)

abbrev pub with_info : Text → Fetched TagInfo → TagDates → TagDates
with_info tag (error e) out = out
with_info tag (value info) out = record { infos = (tag, info) ∷ out.infos; ok = true }

abbrev pub info_key : Text → Text → Text
info_key repository tag = repository ++ (b'|' ∷ tag)

abbrev pub listed_dates : Fetched TagDates → TagDates
listed_dates (error e) = record { infos = []; ok = false }
listed_dates (value entry) = entry

-- `c.vendors` replaces the API of some hosts; `parse` is `name.NewRepository`.
module _ (limits : VendorLimits) (servers : Servers) (vendors : List (Text × VendorApi))
    (parse : Text → Fetched Repository) where
  -- `vendorTarget`
  unfoldable pub vendor_target : Text → Fetched Target
  unfolding known_api
  vendor_target repository = and_fetched (parse repository) (λ repo.
      elim (known_api repo.host vendors) [
        | some api ↦ value (record { api = api; path = repo.path })
        | none ↦ value (record { api = vendor_api_for repo.scheme repo.host; path = repo.path })
      ])

  dates_of : Infos → Fetched TagDates
  dates_of infos = value (record { infos = infos; ok = not (ltb (length infos) 1) })

  bulk_at : ApiKind → Text → Text → Fetched TagDates
  unfolding dates_of
  bulk_at api_none base path = value (record { infos = []; ok = false })
  bulk_at api_docker base path = and_fetched (hub_listing limits servers base path) dates_of
  bulk_at api_quay base path = and_fetched (quay_listing limits servers base path) dates_of
  bulk_at api_harbor base path = and_fetched (harbor_listing limits servers base path) dates_of

  -- `fetchBulkTagDates`
  unfoldable pub fetch_bulk_tag_dates : Text → Fetched TagDates
  unfolding bulk_at
  fetch_bulk_tag_dates repository =
      and_fetched (vendor_target repository) (λ t. bulk_at t.api.kind t.api.base t.path)

  tag_at : ApiKind → Text → Text → Text → Text → Fetched TagInfo
  tag_at api_none repository base path tag =
      error (plain (repository ++ codes " speaks no vendor tag API"))
  tag_at api_docker repository base path tag = hub_tag_info limits servers base path tag
  tag_at api_quay repository base path tag = quay_tag_info limits servers base path tag
  tag_at api_harbor repository base path tag = harbor_tag_info limits servers base path tag

  -- `fetchTagInfo`
  unfoldable pub fetch_tag_info : Text → Text → Fetched TagInfo
  unfolding tag_at
  fetch_tag_info repository tag =
      and_fetched (vendor_target repository)
        (λ t. tag_at t.api.kind repository t.api.base t.path tag)

  -- One round of the loop over the wanted tags.
  unfoldable pub want_one : Text → Text → Option TagInfo → TagDates × Memo → TagDates × Memo
  want_one repository tag (some done) (out, memo) = (out, memo)
  want_one repository tag none (out, memo) =
      let asked =
        get_or_do (codes "tag-info") memo.img_infos (info_key repository tag)
          (fetch_tag_info repository tag) in
      (with_info tag asked.0 out, record memo { img_infos = asked.1 })

  unfoldable pub want_all : Text → List Text → TagDates × Memo → TagDates × Memo
  unfolding want_one info_of
  want_all repository [] s = s
  want_all repository (tag ∷ want) s =
      want_all repository want (want_one repository tag (info_of s.0.infos tag) s)

  -- `bulkTagDates`
  unfoldable pub bulk_tag_dates : Text → List Text → Memo → TagDates × Memo
  unfolding want_all
  bulk_tag_dates repository want memo =
      let listing =
        get_or_do (codes "tag-dates") memo.img_dates repository (fetch_bulk_tag_dates repository) in
      want_all repository want (listed_dates listing.0, record memo { img_dates = listing.1 })
