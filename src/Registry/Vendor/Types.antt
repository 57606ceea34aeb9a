-- ===== src/Registry/Vendor/Types.antt =====
-- internal/registry/vendor.go: the vendors' tag APIs, and what their answers say of tags.
use yk_update_checker.Prelude.{
  none, some, [], Option, List, ◌∷◌, ◌++◌, if◌then◌else◌, Bool, ℕ, zero, suc, false, true,
}
use yk_update_checker.Prelude.Int.{ℤ, pos, negsuc}
use yk_update_checker.Text.{Text, codes, text_eq, is_nil, contains}
use yk_update_checker.Registry.Verify.{TagInfo}

-- `publicRegistryHosts`
abbrev public_registry_hosts : List Text
public_registry_hosts =
    codes "index.docker.io"
    ∷ codes "registry-1.docker.io"
    ∷ codes "ghcr.io"
    ∷ codes "gcr.io"
    ∷ codes "k8s.gcr.io"
    ∷ codes "registry.k8s.io"
    ∷ codes "mcr.microsoft.com"
    ∷ codes "public.ecr.aws"
    ∷ codes "data.forgejo.org"
    ∷ []

-- `apiKind`
pub data ApiKind : Type 0 where
  api_none api_docker api_quay api_harbor : ApiKind

pub record VendorApi : Type 0 where
  pub kind : ApiKind
  pub base : Text

-- `defaultVendorAPIs`
abbrev default_vendor_apis : List (Text × VendorApi)
default_vendor_apis =
    (codes "index.docker.io", record { kind = api_docker; base = codes "https://hub.docker.com" })
    ∷ (
      codes "registry-1.docker.io",
      record { kind = api_docker; base = codes "https://hub.docker.com" },
    )
    ∷ (codes "quay.io", record { kind = api_quay; base = codes "https://quay.io" })
    ∷ (codes "quay.redhat.com", record { kind = api_quay; base = codes "https://quay.redhat.com" })
    ∷ []

unfoldable pub known_api : Text → List (Text × VendorApi) → Option VendorApi
unfolding text_eq
known_api host [] = none
known_api host ((h, api) ∷ apis) = if text_eq h host then some api else known_api host apis

unfoldable pub vendor_api_for : Text → Text → VendorApi
unfolding known_api contains
vendor_api_for scheme host = elim (known_api host default_vendor_apis) [
  | some api ↦ api
  | none ↦
      if contains public_registry_hosts host
      then record { kind = api_none; base = [] }
      else record { kind = api_harbor; base = scheme ++ (codes "://" ++ host) }
]

-- A repository name as `name.NewRepository` reads it.
pub record Repository : Type 0 where
  pub scheme : Text
  pub host : Text
  pub path : Text

pub record Target : Type 0 where
  pub api : VendorApi
  pub path : Text

-- `hubTag`; a time of zero is `none`
pub record HubTag : Type 0 where
  pub name : Text
  pub last_updated : Option ℕ
  pub digest : Text
  pub full_size : ℕ
  pub image_digests : List Text

-- `quayTag`
pub record QuayTag : Type 0 where
  pub name : Text
  pub digest : Text
  pub size : ℕ
  pub start : ℤ

pub record QuayPage : Type 0 where
  pub tags : List QuayTag
  pub has_additional : Bool

-- `harborArtifact`
pub record HarborArtifact : Type 0 where
  pub digest : Text
  pub push_time : Option ℕ
  pub extra_digest : Text
  pub tags : List Text

abbrev info_with : Text → ℕ → Option ℕ → TagInfo
info_with digest size none = record { digest = digest; has_date = false; pushed = 0; size = size }
info_with digest size (some t) = record {
  digest = digest;
  has_date = true;
  pushed = t;
  size = size;
}

abbrev or_first : Text → List Text → Text
or_first digest [] = digest
or_first digest (d ∷ ds) = if is_nil digest then d else digest

-- `info` of the three
unfoldable pub hub_info : HubTag → TagInfo
hub_info t = info_with (or_first t.digest t.image_digests) t.full_size t.last_updated

start_time : ℤ → Option ℕ
start_time (pos zero) = none
start_time (pos (suc n)) = some (suc n)
start_time (negsuc n) = none

unfoldable pub quay_info : QuayTag → TagInfo
unfolding start_time
quay_info t = info_with t.digest t.size (start_time t.start)

unfoldable pub harbor_info : HarborArtifact → TagInfo
harbor_info a = info_with (if is_nil a.digest then a.extra_digest else a.digest) 0 a.push_time

-- `out[tag] = info`: the last entry of a tag counts, so it stands in front.
abbrev pub Infos : Type 0
Infos = List (Text × TagInfo)

unfoldable pub add_hub : List HubTag → Infos → Infos
unfolding hub_info
add_hub [] out = out
add_hub (t ∷ ts) out =
    add_hub ts (if (hub_info t).has_date then (t.name, hub_info t) ∷ out else out)

unfoldable pub add_quay : List QuayTag → Infos → Infos
unfolding quay_info
add_quay [] out = out
add_quay (t ∷ ts) out = add_quay ts ((t.name, quay_info t) ∷ out)

abbrev add_names : List Text → TagInfo → Infos → Infos
add_names [] info out = out
add_names (n ∷ ns) info out = add_names ns info ((n, info) ∷ out)

unfoldable pub add_harbor : List HarborArtifact → Infos → Infos
unfolding harbor_info
add_harbor [] out = out
add_harbor (a ∷ as_) out =
    add_harbor as_ (if (harbor_info a).has_date then add_names a.tags (harbor_info a) out else out)
