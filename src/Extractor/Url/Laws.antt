-- ===== src/Extractor/Url/Laws.antt =====
-- internal/extractor/extractor.go: a parsed repository URL spells the URL that was parsed.
use yk_update_checker.Prelude.{
  ◌++◌, ◌≡◌, Bool-cases, ◌⊎◌, true, inl, ◌∷◌, inr, length, false, [], &&_iff, ◌==◌, ap₂, ==_iff,
  refl, sym, Option-cases,
}
use yk_update_checker.Extractor.Url.{parse_protocol, split_oci_ref}
use yk_update_checker.Text.Cut.{drop, cut_last-Joins, has_code, cut_last}
use yk_update_checker.Text.{Text, codes, has_prefix}

pub drop-prefix : (s p : Text) → has_prefix s p ≡ true → p ++ drop (length p) s ≡ s
unfolding has_prefix drop
drop-prefix s [] h = refl
drop-prefix [] (c ∷ p) h = absurd (cc h)
drop-prefix (d ∷ s) (c ∷ p) h =
    let (e, k) = (&&_iff (d == c) (has_prefix s p)).0 h in
    ap₂ (λ x y. x ∷ y) (sym ((==_iff d c).0 e)) (drop-prefix s p k)

-- A URL with its scheme, or one with none, which is read as `https`.
abbrev pub IsSpelling : Text → Text × Text → Type 0
IsSpelling raw (protocol, repo) =
    (protocol ++ codes "://" ++ repo ≡ raw)
    ⊎ ((protocol ≡ codes "https")
        × (repo ≡ raw)
        × (has_prefix raw (codes "oci://") ≡ false)
        × (has_prefix raw (codes "https://") ≡ false)
        × (has_prefix raw (codes "http://") ≡ false))

-- The protocol and the repository read off a URL spell the URL, unless it has none of the schemes
-- `oci`, `https` and `http`: then the protocol is `https` and the repository is the URL.
pub parse_protocol-IsSpelling : (raw : Text) → IsSpelling raw (parse_protocol raw)
unfolding parse_protocol
parse_protocol-IsSpelling raw = elim (Bool-cases (has_prefix raw (codes "oci://"))) [
  | inl a ↦ rw a (inl (drop-prefix raw (codes "oci://") a))
  | inr a ↦ rw a (elim (Bool-cases (has_prefix raw (codes "https://"))) [
    | inl b ↦ rw b (inl (drop-prefix raw (codes "https://") b))
    | inr b ↦ rw b (elim (Bool-cases (has_prefix raw (codes "http://"))) [
      | inl c ↦ rw c (inl (drop-prefix raw (codes "http://") c))
      | inr c ↦ rw c (inr (refl, refl, refl, refl, refl))
    ])
  ])
]

-- A bare OCI URL cut at its last slash, or one without a slash, which has no chart.
abbrev pub IsOciSpelling : Text → Text × Text → Type 0
IsOciSpelling bare (repo, chart) =
    ((repo ++ b'/' ∷ chart ≡ bare) × (has_code b'/' chart ≡ false))
    ⊎ ((repo ≡ bare) × (chart ≡ []) × (has_code b'/' bare ≡ false))

pub split_oci_ref-IsOciSpelling : (bare : Text) → IsOciSpelling bare (split_oci_ref bare)
unfolding split_oci_ref
split_oci_ref-IsOciSpelling bare = elim (Option-cases (cut_last b'/' bare)) [
  | inl e ↦ rw (e, split_oci_ref) (inr (refl, refl, rw e at (cut_last-Joins b'/' bare)))
  | inr (parts, e) ↦ rw (e, split_oci_ref) (inl (rw e at (cut_last-Joins b'/' bare)))
]
