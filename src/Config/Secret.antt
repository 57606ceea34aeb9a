-- ===== src/Config/Secret.antt =====
-- The locations that are written with a secret, and what the code reads in them:
-- internal/config/config.go, `userinfo` and `classifyRepoURL`.
use mathlib.Core.Path.{subst}
use mathlib.Core.List.{append_assoc}
use yk_update_checker.Config.Written.{
  other_than, last_index_of-append, span-slashed, span_until, take-append, cut_infix-none, Cuts,
  scheme_of-https, cut_infix-Cuts,
}
use yk_update_checker.Registry.Tag.{has_code}
use yk_update_checker.Config.Location.{
  login_of, authority_of, userinfo, Login, last_index_of, separator, login_before, authority_from,
  cut_after_at, scheme_used, scheme_from, Scheme, is_http, scheme_of, https, cut_infix, http,
}
use yk_update_checker.Text.{Text, has_infix, span, to_lower, codes, text_eq}
use yk_update_checker.Prelude.{
  ◌≡◌, ◌++◌, Option, ◌∷◌, false, some, ◌≢◌, [], ap, ◌∙◌, refl, ◌⊎◌, ℕ, length, ap₂, ◌<◌, take,
  arith, sym, none, true, inl, inr,
}
use yk_update_checker.Gitsync.Redact.{url_text, has_code-append, slashed, cut_infix-scheme}

-- The part in front of the path: a login and a host, neither of which has a slash.
pub record IsAuthority (login host : Text) : Type 0 where
  pub login_slash : has_code b'/' login ≡ false
  pub host_slash : has_code b'/' host ≡ false
  pub host_at : has_code b'@' host ≡ false

-- `login@host:front/rest`, as `scp` writes it; `front` is the path up to its first slash.
abbrev pub copy_text : Text → Text → Text → Option Text → Text
copy_text login host front rest = ((login ++ b'@' ∷ host) ++ b':' ∷ front) ++ slashed rest

-- A location with a secret: a URL with a user and a password, a URL of HTTP or HTTPS with a login of
-- any form, and a location in the form of `scp` with a user and a password.
pub data CarriesSecret : Text → Type 0 where
  with_password :
      (scheme user pass host : Text) (path : Option Text)
      → has_code b':' scheme ≡ false
      → has_code b':' user ≡ false
      → IsAuthority (user ++ b':' ∷ pass) host
      → pass ≢ []
      → CarriesSecret (url_text scheme (some (user ++ b':' ∷ pass)) host path)
  over_http :
      (scheme login host : Text) (path : Option Text)
      → has_code b':' scheme ≡ false
      → (to_lower scheme ≡ codes "http") ⊎ (to_lower scheme ≡ codes "https")
      → IsAuthority login host
      → CarriesSecret (url_text scheme (some login) host path)
  copied :
      (user pass host front : Text) (rest : Option Text)
      → has_infix (copy_text (user ++ b':' ∷ pass) host front rest) separator ≡ false
      → has_code b':' user ≡ false
      → IsAuthority (user ++ b':' ∷ pass) host
      → has_code b':' front ≡ false
      → has_code b'/' front ≡ false
      → has_code b'@' front ≡ false
      → pass ≢ []
      → CarriesSecret (copy_text (user ++ b':' ∷ pass) host front rest)

login_in-authority :
    (login host : Text)
    → has_code b'@' host ≡ false
    → login_before (login ++ b'@' ∷ host) (last_index_of b'@' (login ++ b'@' ∷ host))
      ≡ some (login_of (span (other_than b':') login))
unfolding login_before
login_in-authority login host h =
    rw (last_index_of-append b'@' login host h, take-append login (b'@' ∷ host)) refl

authority-slash :
    (login host : Text) → IsAuthority login host → has_code b'/' (login ++ b'@' ∷ host) ≡ false
authority-slash login host h =
    rw (has_code-append b'/' login (b'@' ∷ host), h.login_slash) h.host_slash

authority_of-url_text :
    (scheme login host : Text) (path : Option Text)
    → has_code b':' scheme ≡ false
    → IsAuthority login host
    → authority_of (url_text scheme (some login) host path) ≡ login ++ b'@' ∷ host
unfolding authority_of authority_from
authority_of-url_text scheme login host path c h =
    ap (authority_from (url_text scheme (some login) host path))
      (cut_infix-scheme scheme ((login ++ b'@' ∷ host) ++ slashed path) c)
    ∙ span-slashed (login ++ b'@' ∷ host) path (authority-slash login host h)

cut_behind : (s : Text) (k at : ℕ) → at < k → cut_after_at s (some k) (some at) ≡ take k s
unfolding cut_after_at
cut_behind s k at h = ground arith

longer : (login host : Text) → length login < length (login ++ b'@' ∷ host)
longer [] host = omega arith
longer (c ∷ login) host = omega (arith, longer login host)

-- The colon behind the host is the last one, and stands behind the last "@".
cut_after_at-host :
    (login host front : Text)
    → has_code b':' front ≡ false
    → has_code b'@' (host ++ b':' ∷ front) ≡ false
    → let a = (login ++ b'@' ∷ host) ++ b':' ∷ front in
      cut_after_at a (last_index_of b':' a) (last_index_of b'@' a) ≡ login ++ b'@' ∷ host
unfolding cut_after_at
cut_after_at-host login host front c a =
    ap₂ (cut_after_at ((login ++ b'@' ∷ host) ++ b':' ∷ front))
      (last_index_of-append b':' (login ++ b'@' ∷ host) front c)
      (ap (last_index_of b'@') (append_assoc login (b'@' ∷ host) (b':' ∷ front))
        ∙ last_index_of-append b'@' login (host ++ b':' ∷ front) a)
    ∙ cut_behind ((login ++ b'@' ∷ host) ++ b':' ∷ front) (length (login ++ b'@' ∷ host))
        (length login) (longer login host)
    ∙ take-append (login ++ b'@' ∷ host) (b':' ∷ front)

authority_of-copy_text :
    (login host front : Text) (rest : Option Text)
    → has_infix (copy_text login host front rest) separator ≡ false
    → IsAuthority login host
    → has_code b':' front ≡ false
    → has_code b'/' front ≡ false
    → has_code b'@' front ≡ false
    → authority_of (copy_text login host front rest) ≡ login ++ b'@' ∷ host
unfolding authority_of authority_from
authority_of-copy_text login host front rest n h c s a =
    ap (authority_from (copy_text login host front rest))
      (cut_infix-none separator (copy_text login host front rest) refl n)
    ∙ ap (λ t. cut_after_at t (last_index_of b':' t) (last_index_of b'@' t))
        (span-slashed ((login ++ b'@' ∷ host) ++ b':' ∷ front) rest slashes)
    ∙ cut_after_at-host login host front c ats
  where
    slashes : has_code b'/' ((login ++ b'@' ∷ host) ++ b':' ∷ front) ≡ false
    slashes =
        rw
          (has_code-append b'/' (login ++ b'@' ∷ host) (b':' ∷ front), authority-slash login host h)
          s

    ats : has_code b'@' (host ++ b':' ∷ front) ≡ false
    ats = rw (has_code-append b'@' host (b':' ∷ front), h.host_at) a

userinfo-authority :
    (u login host : Text)
    → authority_of u ≡ login ++ b'@' ∷ host
    → has_code b'@' host ≡ false
    → userinfo u ≡ some (login_of (span (other_than b':') login))
unfolding userinfo
userinfo-authority u login host e h =
    ap (λ a. login_before a (last_index_of b'@' a)) e ∙ login_in-authority login host h

-- A user and a password in front of the host are read as such.
split_login :
    (user pass : Text)
    → has_code b':' user ≡ false
    → login_of (span (other_than b':') (user ++ b':' ∷ pass)) ≡ record { user = user; pass = pass }
unfolding login_of
split_login user pass h = rw (span_until b':' user pass h) refl

-- No login with a password, and over HTTP no login at all.
abbrev pub HasNoSecret : Scheme → Option Login → Type 0
HasNoSecret scheme none = Unit
HasNoSecret scheme (some l) = (l.pass ≡ []) × (is_http scheme ≡ false)

no_pass :
    (scheme : Scheme) (u user pass host : Text)
    → authority_of u ≡ (user ++ b':' ∷ pass) ++ b'@' ∷ host
    → has_code b'@' host ≡ false
    → has_code b':' user ≡ false
    → HasNoSecret scheme (userinfo u)
    → pass ≡ []
no_pass scheme u user pass host e h k secret =
    (subst (HasNoSecret scheme)
      (userinfo-authority u (user ++ b':' ∷ pass) host e h ∙ ap some (split_login user pass k))
      secret).0

http_scheme :
    (t : Text) (scheme : Scheme)
    → (t ≡ codes "http") ⊎ (t ≡ codes "https")
    → scheme_of t ≡ some scheme
    → is_http scheme ≡ true
unfolding scheme_of text_eq
http_scheme t scheme (inl q) e =
    let f : some http ≡ some scheme = subst (λ s. scheme_of s ≡ some scheme) q e in
    let g : http ≡ scheme = cc (f) in subst (λ s. is_http s ≡ true) g refl
http_scheme t scheme (inr q) e =
    let f : some https ≡ some scheme = subst (λ s. scheme_of s ≡ some scheme) q e in
    let g : https ≡ scheme = cc (f) in subst (λ s. is_http s ≡ true) g refl

scheme_used-url_text :
    (scheme login host : Text) (path : Option Text)
    → has_code b':' scheme ≡ false
    → scheme_used (url_text scheme (some login) host path) ≡ scheme_of (to_lower scheme)
unfolding scheme_used scheme_from
scheme_used-url_text scheme login host path c =
    ap (scheme_from (url_text scheme (some login) host path))
      (cut_infix-scheme scheme ((login ++ b'@' ∷ host) ++ slashed path) c)

-- A login as the code reads it is refused in a location with a secret.
pub CarriesSecret-login :
    {u : Text} (scheme : Scheme)
    → CarriesSecret u
    → scheme_used u ≡ some scheme
    → ¬ HasNoSecret scheme (userinfo u)
CarriesSecret-login scheme (with_password s user pass host path c k h ne) e secret = ne (
    no_pass scheme _ user pass host (authority_of-url_text s (user ++ b':' ∷ pass) host path c h)
      h.host_at k secret)
CarriesSecret-login scheme (over_http s login host path c k h) e secret =
    let plain =
      subst (HasNoSecret scheme)
        (userinfo-authority _ login host (authority_of-url_text s login host path c h) h.host_at)
        secret in
    let over =
      http_scheme (to_lower s) scheme k (sym (scheme_used-url_text s login host path c) ∙ e) in
    cc (plain.1, over)
CarriesSecret-login scheme (copied user pass host front rest n k h c d f ne) e secret = ne (
    no_pass scheme _ user pass host
      (authority_of-copy_text (user ++ b':' ∷ pass) host front rest n h c d f) h.host_at k secret)

-- The location is a URL of HTTPS.
pub record IsHttpsUrl (u : Text) : Type 0 where
  pub scheme : Text
  pub rest : Text
  pub spelt : u ≡ scheme ++ (codes "://" ++ rest)
  pub secure : to_lower scheme ≡ codes "https"

https_of :
    (u : Text) (o : Option (Text × Text))
    → Cuts separator u o
    → scheme_from u o ≡ some https
    → IsHttpsUrl u
unfolding scheme_from
https_of u (some (s, t)) c e = record {
  scheme = s;
  rest = t;
  spelt = c;
  secure = scheme_of-https (to_lower s) e;
}
https_of u none c e = absurd (ground arith)

pub scheme_used-IsHttpsUrl : (u : Text) → scheme_used u ≡ some https → IsHttpsUrl u
unfolding scheme_used
scheme_used-IsHttpsUrl u e = https_of u (cut_infix separator u) (cut_infix-Cuts separator u) e
