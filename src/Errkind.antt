-- ===== src/Errkind.antt =====
-- internal/errkind/errkind.go: the kinds of failures, and the kind of an error.
pub mod Laws
use yk_update_checker.Prelude.{
  ℕ, Option, Bool, if◌then◌else◌, some, ◌||◌, true, ◌==◌, none, false, leb, ◌++◌, ◌∷◌, List, [],
}
use yk_update_checker.Text.{Text, codes}

pub data Kind : Type 0 where
  auth not_found unreachable timeout rate_limited server_error host_key : Kind
  invalid_version too_large unsupported other : Kind

-- An error value as `errors.As` and `errors.Is` see it. `known` is this package's `*Error`;
-- `network`, `dns` and `op` implement `net.Error`, with what their `Timeout` answers.
pub data Failure : Type 0 where
  plain : Text → Failure
  wrapped : Text → Failure → Failure
  joined : Failure → Failure → Failure
  known : Kind → Failure → Failure
  deadline_exceeded canceled : Failure
  network dns op : (is_timeout : Bool) → Text → Failure

abbrev pub or_else {ℓ} : {A : Type ℓ} → Option A → Option A → Option A
or_else (some a) o = some a
or_else none o = o

-- `errors.As(err, &known)`, outermost first
unfoldable pub as_known : Failure → Option Kind
as_known (known k e) = some k
as_known (wrapped msg e) = as_known e
as_known (joined e f) = or_else (as_known e) (as_known f)
as_known _ = none

-- `errors.As(err, &netErr)`: context.DeadlineExceeded has the methods of `net.Error` too.
unfoldable pub as_net : Failure → Option Bool
as_net (known k e) = as_net e
as_net (wrapped msg e) = as_net e
as_net (joined e f) = or_else (as_net e) (as_net f)
as_net deadline_exceeded = some true
as_net (network t msg) = some t
as_net (dns t msg) = some t
as_net (op t msg) = some t
as_net _ = none

-- `errors.Is(err, context.DeadlineExceeded)`, `errors.Is(err, context.Canceled)`
unfoldable pub is_deadline : Failure → Bool
is_deadline (known k e) = is_deadline e
is_deadline (wrapped msg e) = is_deadline e
is_deadline (joined e f) = is_deadline e || is_deadline f
is_deadline deadline_exceeded = true
is_deadline _ = false

unfoldable pub is_canceled : Failure → Bool
is_canceled (known k e) = is_canceled e
is_canceled (wrapped msg e) = is_canceled e
is_canceled (joined e f) = is_canceled e || is_canceled f
is_canceled canceled = true
is_canceled _ = false

-- `errors.As` for `*net.DNSError` or `*net.OpError`
unfoldable pub is_dns_or_op : Failure → Bool
is_dns_or_op (known k e) = is_dns_or_op e
is_dns_or_op (wrapped msg e) = is_dns_or_op e
is_dns_or_op (joined e f) = is_dns_or_op e || is_dns_or_op f
is_dns_or_op (dns t msg) = true
is_dns_or_op (op t msg) = true
is_dns_or_op _ = false

-- `Wrap` on an error that is not nil
unfoldable pub wrap : Kind → Failure → Failure
wrap kind e = elim (as_known e) [ some k ↦ e | none ↦ known kind e ]

of_net : Option Bool → Bool → Kind
of_net (some is_timeout) addressed = if is_timeout then timeout else unreachable
of_net none addressed = if addressed then unreachable else other

-- `Of` on an error that is not nil
unfoldable pub kind_of : Failure → Kind
unfolding of_net
kind_of e = elim (as_known e) [
  | some k ↦ k
  | none ↦ if is_deadline e then timeout else of_net (as_net e) (is_dns_or_op e)
]

-- `FromHTTPStatus`
unfoldable pub from_http_status : ℕ → Kind
from_http_status code =
    if code == 401 || code == 403
    then auth
    else if code == 404
    then not_found
    else if code == 429
    then rate_limited
    else if leb 500 code
    then server_error
    else other

-- `err.Error()`: a wrapping text stands in front, and joined errors stand on lines of their own.
unfoldable pub message : Failure → Text
message (plain msg) = msg
message (wrapped msg e) = msg ++ message e
message (joined e f) = message e ++ (10 ∷ message f)
message (known k e) = message e
message deadline_exceeded = codes "context deadline exceeded"
message canceled = codes "context canceled"
message (network t msg) = msg
message (dns t msg) = msg
message (op t msg) = msg

-- The text of a kind.
abbrev pub kind_name : Kind → Text
kind_name auth = codes "auth"
kind_name not_found = codes "not_found"
kind_name unreachable = codes "unreachable"
kind_name timeout = codes "timeout"
kind_name rate_limited = codes "rate_limited"
kind_name server_error = codes "server_error"
kind_name host_key = codes "host_key"
kind_name invalid_version = codes "invalid_version"
kind_name too_large = codes "too_large"
kind_name unsupported = codes "unsupported"
kind_name other = codes "other"

-- `All`
abbrev pub all_kinds : List Kind
all_kinds =
    auth ∷ not_found ∷ unreachable ∷ timeout ∷ rate_limited ∷ server_error ∷ host_key
    ∷ invalid_version ∷ too_large ∷ unsupported ∷ other ∷ []
