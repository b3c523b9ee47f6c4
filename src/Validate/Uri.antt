-- ===== src/Validate/Uri.antt =====
-- src/validate.rs: the API version in a path, and the URIs of CRLs.
pub mod Laws
use pccs_rs.Common.{
  ℕ, zero, suc, ◌+◌, ◌-◌, Bool, true, false, not, ◌&&◌, ◌||◌, List, [], ◌∷◌, ◌++◌, Option, none,
  some, ltb, leb, ◌==◌, if◌then◌else◌, length, take, drop, all, is_empty,
}
use pccs_rs.Common.Result.{Result, ok, err, panic}
use pccs_rs.Common.Text.{Text, codes, text_eq, is_ascii_digit}
use pccs_rs.Errors.{PccsError, invalid_req}
use pccs_rs.Validate.Strings.{split_char, strip_prefix, strip_suffix, parse_u32}

-- The digits that a text begins with, and what stands behind them.
unfoldable pub span_digits : Text → Text × Text
span_digits [] = ([], [])
span_digits (b ∷ s) =
    if is_ascii_digit b
    then (let (digits, rest) = span_digits s in (b ∷ digits, rest))
    else ([], b ∷ s)

abbrev pub starts_slash : Text → Bool
starts_slash [] = false
starts_slash (b ∷ s) = b == b'/'

-- The version that stands at this place of the path, if it is 3 or 4.
unfoldable pub version_at : Text → Option ℕ
version_at (a ∷ b ∷ c ∷ d ∷ s) =
    if a == b'/' && (b == b'v' && (is_ascii_digit c && not (c == b'0')))
    then (let (digits, rest) = span_digits (c ∷ d ∷ s) in
        if starts_slash rest
        then (elim (parse_u32 0 digits) [
          | none ↦ none
          | some ver ↦ if ver == 3 || ver == 4 then some ver else none
        ])
        else none)
    else none
version_at _ = none

unfoldable pub api_version_from_url : Text → Result PccsError ℕ
api_version_from_url [] = err invalid_req
api_version_from_url (b ∷ url) = elim (version_at (b ∷ url)) [
  | some ver ↦ ok ver
  | none ↦ api_version_from_url url
]

abbrev is_letter : ℕ → Bool
is_letter b = leb b'a' b && leb b b'z' || leb b'A' b && leb b b'Z'

unfoldable pub is_host_char : ℕ → Bool
is_host_char b = is_letter b || (is_ascii_digit b || b == b'-')

abbrev longer_prefix : Text → Text → Bool
longer_prefix p s = elim (strip_prefix p s) [ none ↦ false | some rest ↦ not (is_empty rest) ]

-- The parts of an https URI: its host and its path.
unfoldable pub split_https : Text → Option (Text × Text)
split_https uri = elim (strip_prefix (codes "https://") uri) [
  | none ↦ none
  | some rest ↦ split_char b'/' rest
]

unfoldable pub is_root_host : Text → Bool
is_root_host host =
    text_eq host (codes "certprx.adsdcsp.com")
    || (elim (strip_suffix (codes "certificates.trustedservices.intel.com") host) [
      | none ↦ false
      | some left ↦ all is_host_char left
    ])

unfoldable pub is_root_crl_uri : Text → Bool
is_root_crl_uri uri = elim (split_https uri) [
  | none ↦ false
  | some (host, path) ↦ is_root_host host && longer_prefix (codes "IntelSGXRootCA.") path
]

abbrev label_before : Text → Text → Bool
label_before suffix host = elim (strip_suffix suffix host) [
  | none ↦ false
  | some left ↦ not (is_empty left) && all is_host_char left
]

abbrev has_suffix : Text → Text → Bool
has_suffix suffix host = elim (strip_suffix suffix host) [ none ↦ false | some _ ↦ true ]

-- `strip_suffix(p).unwrap_or(d)`.
abbrev without_suffix : Text → Text → Text → Text
without_suffix suffix s d = elim (strip_suffix suffix s) [ none ↦ d | some left ↦ left ]

unfoldable pub is_intermediate_host : Text → Bool
is_intermediate_host host =
    if text_eq host (codes "api.trustedservices.intel.com")
      || has_suffix (codes ".api.trustedservices.intel.com") host
    then (let prefix = without_suffix (codes "api.trustedservices.intel.com") host [] in
        all is_host_char (without_suffix (codes ".") prefix prefix))
    else if has_suffix (codes ".az.sgxprod.adsdcsp.com") host
    then label_before (codes ".az.sgxprod.adsdcsp.com") host
    else label_before (codes ".az.sgxnp.adsdcsp.com") host

abbrev no_leading_zero : Text → Bool
no_leading_zero [] = false
no_leading_zero (b ∷ s) = not (b == b'0')

-- `sgx/certification/vN/pckcrl`.
unfoldable pub is_pckcrl_path : Text → Bool
is_pckcrl_path path = elim (strip_prefix (codes "sgx/certification/v") path) [
  | none ↦ false
  | some rest ↦ elim (split_char b'/' rest) [
    | none ↦ false
    | some (ver, tail) ↦
        text_eq tail (codes "pckcrl") && (no_leading_zero ver && all is_ascii_digit ver)
  ]
]

unfoldable pub is_intermediate_crl_uri : Text → Bool
is_intermediate_crl_uri uri = elim (split_https uri) [
  | none ↦ false
  | some (host, path_q) ↦ is_intermediate_host host && (elim (split_char b'?' path_q) [
    | none ↦ false
    | some (path, query) ↦ not (is_empty query) && is_pckcrl_path path
  ])
]

unfoldable pub is_valid_crl_uri : Text → Bool
is_valid_crl_uri uri =
    if is_empty uri || ltb 2048 (length uri)
    then false
    else is_root_crl_uri uri || is_intermediate_crl_uri uri
