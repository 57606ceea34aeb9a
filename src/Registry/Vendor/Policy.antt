-- ===== src/Registry/Vendor/Policy.antt =====
-- internal/registry/client.go: what a request may be redirected to, and which answers count.
use yk_update_checker.Prelude.{
  none, some, inl, inr, true, false, [], ℕ, List, ◌≡◌, ◌∷◌, Bool, ◌+◌, All, Option, length, ◌≤◌,
  ◌&&◌, arith, Bool-cases, ◌≢◌, ◌==◌, ◌⊎◌, ltb, &&_iff, ==_iff, ap,
}
use yk_update_checker.Errkind.{Failure}
use yk_update_checker.Text.{Text, codes, text_eq, text_eq_iff}
use yk_update_checker.Registry.Cache.{Fetched, value}
use yk_update_checker.Registry.Vendor.Json.{
  Reply, no_reply, reply, get_json, within, Location, first_of, check_redirect_chain,
}

abbrev pub is_allowed : Option Failure → Bool
is_allowed none = true
is_allowed (some e) = false

-- Every request of the chain was let through when it was made.
abbrev pub is_followed : Location → List Location → Bool
is_followed req [] = true
is_followed req (before ∷ chain) =
    is_allowed (check_redirect_chain req (before ∷ chain)) && is_followed before chain

abbrev pub IsHttps : Location → Type 0
IsHttps l = l.scheme ≡ codes "https"

check_redirect_chain-none :
    (req before : Location) (chain : List Location)
    → is_allowed (check_redirect_chain req (before ∷ chain)) ≡ true
    → (length (before ∷ chain) ≤ 5)
      × (((first_of before chain).scheme ≢ codes "https") ⊎ IsHttps req)
unfolding check_redirect_chain
check_redirect_chain-none req before chain h = elim (Bool-cases (ltb 5 (length (before ∷ chain)))) [
  | inl e ↦ absurd (cc (rw e at h))
  | inr e ↦ (
    ground (arith, e),
    elim (Bool-cases (text_eq (first_of before chain).scheme (codes "https"))) [
      | inr f ↦ inl (λ s. cc (f, (text_eq_iff (first_of before chain).scheme (codes "https")).1 s))
      | inl f ↦ elim (Bool-cases (text_eq req.scheme (codes "https"))) [
        | inl g ↦ inr ((text_eq_iff req.scheme (codes "https")).0 g)
        | inr g ↦ absurd (cc (rw (e, f, g) at h))
      ]
    ],
  )
]

-- A chain that begins with https stays with it, and is at most five redirects long.
pub is_followed-IsHttps :
    (req : Location) (chain : List Location)
    → is_followed req chain ≡ true
    → IsHttps (first_of req chain)
    → All IsHttps (req ∷ chain) × (length chain ≤ 5)
unfolding first_of
is_followed-IsHttps req [] h s = ((s, tt), omega arith)
is_followed-IsHttps req (before ∷ chain) h s =
    let (p, q) = (&&_iff (is_allowed (check_redirect_chain req (before ∷ chain))) _).0 h in
    let (all_before, short) = is_followed-IsHttps before chain q s in
    let (bound, secure) = check_redirect_chain-none req before chain p in
    elim secure [ inl n ↦ absurd (n s) | inr r ↦ ((r, all_before), bound) ]

-- Only an answer with status 200 counts, decoded from at most so many bytes.
get_json-value :
    {V : Type 0} (limit : ℕ) (u : Text) (r : Reply V) (v : V)
    → get_json limit u r ≡ value v
    → (body : ℕ → Fetched V × ℕ) × (r ≡ reply 200 body)
      × ((body (limit + 1)).0 ≡ value v)
      × ((body (limit + 1)).1 ≤ limit)
unfolding get_json within
get_json-value limit u (no_reply e) v h = absurd (cc h)
get_json-value limit u (reply status body) v h = elim (Bool-cases (status == 200)) [
  | inl e ↦
      let same : status ≡ 200 = (==_iff status 200).0 e in
      elim (Bool-cases (ltb limit (body (limit + 1)).1)) [
        | inl f ↦ absurd (cc (rw (e, f) at h))
        | inr f ↦ (body, ap (λ n. reply n body) same, rw (e, f) at h, ground (arith, f))
      ]
  | inr e ↦ absurd (cc (rw e at h))
]
