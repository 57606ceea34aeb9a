-- ===== src/Registry/Vendor/Json.antt =====
-- internal/registry/client.go: `getJSON`, and the policy for redirects.
use yk_update_checker.Prelude.{
  ℕ, List, ◌∷◌, if◌then◌else◌, Option, ◌++◌, [], none, ◌==◌, ltb, ◌+◌, length, some, ◌&&◌, not,
}
use yk_update_checker.Errkind.{Failure, plain, wrap, from_http_status, too_large}
use yk_update_checker.Text.{Text, codes, text_eq}
use yk_update_checker.Text.Decimal.{itoa}
use yk_update_checker.Registry.Cache.{Fetched, error}

-- What `client.Do` gives: an error, or a status with a body. A decoder that may read so many bytes
-- gives a value or an error, and the number of bytes it has read.
pub data Reply (V : Type 0) : Type 0 where
  no_reply : Failure → Reply V
  reply : (status : ℕ) → (ℕ → Fetched V × ℕ) → Reply V

-- `httpStatusError`
unfoldable pub http_status_error : Text → ℕ → Failure
http_status_error u code =
    wrap (from_http_status code) (plain (u ++ (codes ": HTTP " ++ itoa code)))

unfoldable pub within : {V : Type 0} → ℕ → Text → Fetched V × ℕ → Fetched V
within limit u (decoded, taken) =
    if ltb limit taken
    then error (
        wrap too_large
          (plain (u ++ (codes " exceeds the " ++ (itoa limit ++ codes " byte size limit")))))
    else decoded

-- `getJSON`, without the headers
unfoldable pub get_json : {V : Type 0} → ℕ → Text → Reply V → Fetched V
unfolding within
get_json limit u (no_reply e) = error e
get_json limit u (reply status body) =
    if status == 200 then within limit u (body (limit + 1)) else error (http_status_error u status)

-- Where a request goes.
pub record Location : Type 0 where
  pub scheme : Text
  pub host : Text

-- `maxRedirects`
abbrev pub max_redirects : ℕ
max_redirects = 5

-- The first request of a chain, given the newest and those before it, the newest first.
unfoldable pub first_of : Location → List Location → Location
first_of req [] = req
first_of req (before ∷ chain) = first_of before chain

-- `checkRedirectChain`
unfoldable pub check_redirect_chain : Location → List Location → Option Failure
unfolding first_of text_eq
check_redirect_chain req [] = none
check_redirect_chain req (before ∷ chain) =
    let hops = length (before ∷ chain) in
    if ltb max_redirects hops
    then some (plain (codes "stopped after 5 redirects"))
    else if text_eq (first_of before chain).scheme (codes "https")
        && not (text_eq req.scheme (codes "https"))
    then some (
        plain
          (codes "refusing redirect from https to " ++ (req.scheme ++ (codes "://" ++ req.host))))
    else none
