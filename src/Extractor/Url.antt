-- ===== src/Extractor/Url.antt =====
-- internal/extractor/extractor.go: repository URLs.
pub mod Laws
use yk_update_checker.Prelude.{if◌then◌else◌, []}
use yk_update_checker.Prelude.{none, some}
use yk_update_checker.Text.Cut.{cut_last, trim_prefix, drop}
use yk_update_checker.Text.{Text, codes, has_prefix}

-- `ParseProtocol`
unfoldable pub parse_protocol : Text → Text × Text
unfolding has_prefix drop
parse_protocol raw =
    if has_prefix raw (codes "oci://")
    then (codes "oci", trim_prefix raw (codes "oci://"))
    else if has_prefix raw (codes "https://")
    then (codes "https", trim_prefix raw (codes "https://"))
    else if has_prefix raw (codes "http://")
    then (codes "http", trim_prefix raw (codes "http://"))
    else (codes "https", raw)

-- `SplitOCIRef`
unfoldable pub split_oci_ref : Text → Text × Text
unfolding cut_last
split_oci_ref bare = elim (cut_last b'/' bare) [ none ↦ (bare, []) | some parts ↦ parts ]
