-- ===== src/Config/Laws.antt =====
-- What an accepted configuration is: internal/config/config.go.
use yk_update_checker.Config.Location.{Scheme, classify_repo_url}
use yk_update_checker.Config.Checked.{
  Refusal, Checked, checked_then, refused, accepted, no_name, names_collide, not_a_directory,
  name_too_long, path_outside,
}
use yk_update_checker.Config.Repos.{
  Repo, is_local, check_repos, check_repo, validate_repos, max_repo_dir_len, safe_name, RepoAuth,
  validate_auth,
}
use mathlib.Core.Path.{subst}
use yk_update_checker.Text.{Text, is_nil, has_prefix, contains, codes, text_eq_refl}
use yk_update_checker.Prelude.{
  ◌≡◌, All, [], ◌≢◌, ◌∷◌, true, arith, ◌⊎◌, false, refl, inl, inr, ap, length, ◌∙◌, ◌≤◌, not, ℕ,
  List, Bool, ◌&&◌, ltb, map, if◌then◌else◌,
}
use yk_update_checker.Config.Parts.{
  IsLocation, classify_repo_url-IsLocation, IsCovered, trimmed, validate_auth-IsCovered,
  safe_name-IsDirRune, classify_repo_url-scheme_used, IsDirRune, has_prefix-first,
}

-- What the program relies on in a repository: its checkout directory has letters, digits, "-", "_"
-- and "." only, does not start with ".", and has at most 100 characters; the path stays in the checkout; the
-- location and the credentials are acceptable.
pub record IsUsable (r : Repo) : Type 0 where
  pub named : r.name ≢ []
  pub dir_runes : All IsDirRune (safe_name r.name)
  pub dir_visible : (t : Text) → safe_name r.name ≢ b'.' ∷ t
  pub dir_short : length (safe_name r.name) ≤ 100
  pub path_inside : (r.path ≡ []) ⊎ (is_local r.path ≡ true)
  pub location : IsLocation r.url
  pub covered : IsCovered r.auth r.url

abbrev pub normalised : Repo → Repo
normalised r = record r { auth = trimmed r.auth }

-- What `check_repo` has found when it accepts.
record Accepted (r r' : Repo) : Type 0 where
  scheme : Scheme
  auth : RepoAuth
  classified : classify_repo_url r.url ≡ accepted scheme
  validated : validate_auth r.auth scheme ≡ accepted auth
  result : r' ≡ record r { auth = auth }

checked_then-accepted :
    {A B : Type 0} (x : Checked A) (f : A → Checked B) {b : B}
    → checked_then x f ≡ accepted b
    → (a : A) × (x ≡ accepted a) × (f a ≡ accepted b)
checked_then-accepted (accepted a) f h = (a, refl, h)
checked_then-accepted (refused e) f h = absurd (cc h)

abbrev transported : Repo → Checked Repo
transported r =
    checked_then (classify_repo_url r.url)
      (λ scheme. checked_then (validate_auth r.auth scheme) (λ a. accepted (record r { auth = a })))

transported-Accepted : (r r' : Repo) → transported r ≡ accepted r' → Accepted r r'
transported-Accepted r r' h =
    let (s, e, k) = checked_then-accepted (classify_repo_url r.url) _ h in
    let (a, f, g) = checked_then-accepted (validate_auth r.auth s) _ k in
    record { scheme = s; auth = a; classified = e; validated = f; result = cc (g) }

guarded :
    {A : Type 0} (b : Bool) (e : Refusal) (x : Checked A) {a : A}
    → (if b then refused e else x) ≡ accepted a
    → (b ≡ false) × (x ≡ accepted a)
guarded true e x h = absurd (cc h)
guarded false e x h = (refl, h)

inside_of :
    (path : Text)
    → (not (is_nil path) && not (is_local path)) ≡ false
    → (path ≡ []) ⊎ (is_local path ≡ true)
inside_of [] h = inl refl
inside_of (c ∷ s) h = inr (ground arith)

short_of : (n : ℕ) → ltb max_repo_dir_len n ≡ false → n ≤ max_repo_dir_len
short_of n h = ground arith

nil_ne : (s : Text) → is_nil s ≡ false → s ≢ []
nil_ne s h e = absurd (cc (rw e at h))

check_repo-IsUsable :
    (r r' : Repo) → check_repo r ≡ accepted r' → (r' ≡ normalised r) × IsUsable (normalised r)
unfolding check_repo
check_repo-IsUsable r r' h =
    let (named, h₁) = guarded (is_nil r.name) no_name _ h in
    let (visible, h₂) = guarded (has_prefix (safe_name r.name) (codes ".")) not_a_directory _ h₁ in
    let (short, h₃) =
      guarded (ltb max_repo_dir_len (length (safe_name r.name))) name_too_long _ h₂ in
    let (inside, h₄) = guarded (not (is_nil r.path) && not (is_local r.path)) path_outside _ h₃ in
    let t = transported-Accepted r r' h₄ in
    let s = classify_repo_url-scheme_used r.url t.scheme t.classified in
    let v = validate_auth-IsCovered r.auth t.scheme r.url t.auth s t.validated in
    (
      t.result ∙ ap (λ (a : RepoAuth). record r { auth = a }) v.0,
      record {
        named = nil_ne r.name named;
        dir_runes = safe_name-IsDirRune r.name;
        dir_visible = λ t e. has_prefix-first b'.' (safe_name r.name) t visible e;
        dir_short = short_of (length (safe_name r.name)) short;
        path_inside = inside_of r.path inside;
        location = classify_repo_url-IsLocation r.url t.scheme t.classified;
        covered = v.1;
      },
    )

-- No two repositories share a directory.
abbrev pub dir_of : Repo → Text
dir_of r = safe_name r.name

abbrev pub AreApart : List Repo → Type 0
AreApart [] = Unit
AreApart (r ∷ rs) = All (λ r'. dir_of r ≢ dir_of r') rs × AreApart rs

abbrev Unseen : List Text → List Repo → Type 0
Unseen seen rs = All (λ r. contains seen (dir_of r) ≡ false) rs

Unseen-split :
    (d : Text) (seen : List Text) (rs : List Repo)
    → Unseen (d ∷ seen) rs
    → Unseen seen rs × All (λ r'. d ≢ dir_of r') rs
unfolding contains
Unseen-split d seen [] h = (tt, tt)
Unseen-split d seen (r ∷ rs) (u, h) =
    let ih = Unseen-split d seen rs h in
    ((ground arith, ih.0), (λ e. absurd (cc (rw (← e, text_eq_refl d) at u)), ih.1))

-- What the loop returns when it accepts all.
record AllUsable (seen : List Text) (rs rs' : List Repo) : Type 0 where
  result : rs' ≡ map normalised rs
  usable : All IsUsable rs'
  unseen : Unseen seen rs'
  apart : AreApart rs'

check_repos-AllUsable :
    (seen : List Text) (rs rs' : List Repo)
    → check_repos seen rs ≡ accepted rs'
    → AllUsable seen rs rs'
unfolding check_repos
check_repos-AllUsable seen [] rs' h =
    subst (AllUsable seen []) (cc h)
      (record { result = refl; usable = tt; unseen = tt; apart = tt })
check_repos-AllUsable seen (r ∷ rs) rs' h =
    let (r₁, e, k) = checked_then-accepted (check_repo r) _ h in
    let (fresh, k₁) = guarded (contains seen (dir_of r)) names_collide _ k in
    let (rest, f, g) = checked_then-accepted (check_repos (dir_of r ∷ seen) rs) _ k₁ in
    let u = check_repo-IsUsable r r₁ e in
    let ih = check_repos-AllUsable (dir_of r ∷ seen) rs rest f in
    let same : normalised r ∷ rest ≡ rs' = cc (u.0, g) in
    let split_ = Unseen-split (dir_of r) seen rest ih.unseen in
    subst (AllUsable seen (r ∷ rs)) same (record {
      result = ap (λ l. normalised r ∷ l) ih.result;
      usable = (u.1, ih.usable);
      unseen = (fresh, split_.0);
      apart = (split_.1, ih.apart);
    })

-- The repositories of an accepted configuration are the given ones with the type of their
-- credentials trimmed; there is at least one, every one is usable, and no two share a checkout
-- directory.
pub validate_repos-IsUsable :
    (rs rs' : List Repo)
    → validate_repos rs ≡ accepted rs'
    → (rs' ≡ map normalised rs) × (rs' ≢ []) × All IsUsable rs' × AreApart rs'
unfolding validate_repos
validate_repos-IsUsable [] rs' h = absurd (cc h)
validate_repos-IsUsable (r ∷ rs) rs' h =
    let u = check_repos-AllUsable [] (r ∷ rs) rs' h in
    (u.result, λ e. absurd (cc (u.result, e)), u.usable, u.apart)
