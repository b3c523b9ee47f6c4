-- ===== src/Validate/Uri/Laws.antt =====
-- src/validate.rs: the shape of accepted paths and CRL URIs.
use pccs_rs.Common.{ℕ, ◌≡◌, ◌⊎◌, refl, ap, inl, inr, true, [], ◌∷◌, ◌++◌, some, arith, Option-cases}
use pccs_rs.Common.Result.{ok}
use pccs_rs.Common.Text.{Text}
use pccs_rs.Validate.Strings.{parse_u32}
use pccs_rs.Validate.Uri.{span_digits, starts_slash, version_at, api_version_from_url}

span_digits_sound : (s : Text) → s ≡ (span_digits s).0 ++ (span_digits s).1
unfolding span_digits
span_digits_sound [] = refl
span_digits_sound (b ∷ s) = ground (arith, span_digits_sound s)

starts_slash_sound : (s : Text) → starts_slash s ≡ true → (post : Text) × (s ≡ b'/' ∷ post)
starts_slash_sound [] h = absurd (ground arith)
starts_slash_sound (b ∷ s) h = (s, ground arith)

-- Where the text begins with an accepted version, that is 3 or 4 and stands between slashes.
version_at_sound :
    (s : Text) (v : ℕ)
    → version_at s ≡ some v
    → ((v ≡ 3) ⊎ (v ≡ 4))
      × ((digits : Text) × (post : Text) × (s ≡ b'/' ∷ b'v' ∷ (digits ++ b'/' ∷ post))
          × (parse_u32 0 digits ≡ some v))
unfolding version_at
version_at_sound [] v h = absurd (ground arith)
version_at_sound (a ∷ []) v h = absurd (ground arith)
version_at_sound (a ∷ b ∷ []) v h = absurd (ground arith)
version_at_sound (a ∷ b ∷ c ∷ []) v h = absurd (ground arith)
version_at_sound (a ∷ b ∷ c ∷ d ∷ s) v h =
    let (digits, rest) = span_digits (c ∷ d ∷ s) in
    let (post, slash) = starts_slash_sound rest (ground arith) in
    (
      ground arith,
      (digits, post, ground (arith, span_digits_sound (c ∷ d ∷ s), slash), ground arith),
    )

-- The API version of a path is 3 or 4, and the path has a part `/v`, the digits of that number, `/`.
pub api_version_from_url_sound :
    (url : Text) (v : ℕ)
    → api_version_from_url url ≡ ok v
    → ((v ≡ 3) ⊎ (v ≡ 4))
      × ((pre : Text) × (digits : Text) × (post : Text) × (url
            ≡ pre ++ b'/' ∷ b'v' ∷ (digits ++ b'/' ∷ post))
          × (parse_u32 0 digits ≡ some v))
unfolding api_version_from_url
api_version_from_url_sound [] v h = absurd (ground arith)
api_version_from_url_sound (b ∷ url) v h = elim (Option-cases (version_at (b ∷ url))) [
  | inl out ↦
      let (three, (pre, digits, post, same, read)) =
        api_version_from_url_sound url v (ground arith) in
      (three, (b ∷ pre, digits, post, ap (λ t. b ∷ t) same, read))
  | inr (w, found) ↦
      let here : w ≡ v = ground arith in
      let (three, (digits, post, same, read)) = version_at_sound (b ∷ url) v (rw (← here) found) in
      (three, ([], digits, post, same, read))
]
