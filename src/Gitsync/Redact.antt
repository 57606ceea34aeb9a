-- ===== src/Gitsync/Redact.antt =====
-- `RedactURL` on URLs that are written out of their parts.
use yk_update_checker.Text.Joined.{has_code-cons}
use yk_update_checker.Prelude.{
  Option, [], ◌≡◌, some, false, ◌∷◌, ◌++◌, none, ℕ, ap, ◌||◌, refl, ◌∙◌, arith, ap₂,
}
use mathlib.Core.List.{append-nil}
use yk_update_checker.Text.{Text, codes}
use yk_update_checker.Text.Cut.{
  cut, cut-append, cut-none, cut_last, cut_last-append, cut_last-none, has_code,
}
use yk_update_checker.Config.Location.{cut_infix}
use yk_update_checker.Gitsync.Url.{redact_url, redact_rest, after_at, tail_of, redact_parts}

-- Nothing, or a path.
abbrev pub slashed : Option Text → Text
slashed none = []
slashed (some path) = b'/' ∷ path

-- A user, with a password or without, in front of the host.
abbrev pub logged_in : Option Text → Text → Text
logged_in none host = host
logged_in (some user) host = user ++ b'@' ∷ host

abbrev pub url_text : Text → Option Text → Text → Option Text → Text
url_text scheme user host path = scheme ++ (codes "://" ++ (logged_in user host ++ slashed path))

-- No slash ends the user's part early.
abbrev pub IsUser : Option Text → Type 0
IsUser none = Unit
IsUser (some user) = has_code b'/' user ≡ false

pub has_code-append : (b : ℕ) (s t : Text) → has_code b (s ++ t) ≡ (has_code b s || has_code b t)
has_code-append b [] t = refl
has_code-append b (c ∷ s) t = ground (arith, has_code-append b s t)

logged_in-clean :
    (user : Option Text) (host : Text)
    → IsUser user
    → has_code b'/' host ≡ false
    → has_code b'/' (logged_in user host) ≡ false
logged_in-clean none host h k = k
logged_in-clean (some user) host h k = rw (has_code-append b'/' user (b'@' ∷ host), h) k

cut-slashed :
    (s : Text) (path : Option Text)
    → has_code b'/' s ≡ false
    → cut b'/' (s ++ slashed path) ≡ (s, path)
cut-slashed s none h = rw (append-nil s) (cut-none b'/' s h)
cut-slashed s (some path) h = cut-append b'/' s path h

tail_of-slashed : (path : Option Text) → tail_of path ≡ slashed path
unfolding tail_of
tail_of-slashed none = refl
tail_of-slashed (some path) = refl

after_at-logged_in :
    (user : Option Text) (host : Text)
    → has_code b'@' host ≡ false
    → after_at (logged_in user host) (cut_last b'@' (logged_in user host)) ≡ host
unfolding after_at
after_at-logged_in none host h = rw (cut_last-none b'@' host h) refl
after_at-logged_in (some user) host h = rw (cut_last-append b'@' user host h) refl

redact_rest-logged_in :
    (user : Option Text) (host : Text) (path : Option Text)
    → IsUser user
    → has_code b'/' host ≡ false
    → has_code b'@' host ≡ false
    → redact_rest (logged_in user host ++ slashed path) ≡ host ++ slashed path
unfolding redact_rest
redact_rest-logged_in user host path h k l =
    ap (λ (c : Text × Option Text). after_at c.0 (cut_last b'@' c.0) ++ tail_of c.1)
      (cut-slashed (logged_in user host) path (logged_in-clean user host h k))
    ∙ ap₂ (λ s t. s ++ t) (after_at-logged_in user host l) (tail_of-slashed path)

pub cut_infix-scheme :
    (scheme t : Text)
    → has_code b':' scheme ≡ false
    → cut_infix (codes "://") (scheme ++ (codes "://" ++ t)) ≡ some (scheme, t)
unfolding cut_infix
cut_infix-scheme [] t h = refl
cut_infix-scheme (c ∷ scheme) t h =
    let (n, k) = has_code-cons b':' c scheme h in rw (n, cut_infix-scheme scheme t k) refl

-- Of a URL in its parts, the user with the password is dropped and all else is kept.
pub redact_url-url_text :
    (scheme : Text) (user : Option Text) (host : Text) (path : Option Text)
    → has_code b':' scheme ≡ false
    → IsUser user
    → has_code b'/' host ≡ false
    → has_code b'@' host ≡ false
    → redact_url (url_text scheme user host path) ≡ url_text scheme none host path
unfolding redact_url redact_parts
redact_url-url_text scheme user host path c h k l =
    ap (redact_parts _) (cut_infix-scheme scheme (logged_in user host ++ slashed path) c)
    ∙ ap (λ s. scheme ++ (codes "://" ++ s)) (redact_rest-logged_in user host path h k l)
