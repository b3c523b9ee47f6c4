-- ===== src/Cache/Canonical.antt =====
-- src/cache.rs: the hosts of the upstream services, and the paths in the form that requests and keys have.
pub mod Sorting
pub mod Query
use pccs_rs.Common.{
  ℕ, zero, suc, ◌+◌, ◌*◌, ◌-◌, Bool, true, false, not, ◌&&◌, ◌||◌, List, [], ◌∷◌, ◌++◌, map, Option,
  none, some, if◌then◌else◌, ◌==◌, ltb, leb, all, length, is_empty,
}
use pccs_rs.Common.Result.{Result, ok, err, panic, ◌>>=◌, ◌>>◌, guard, ok_or}
use pccs_rs.Common.Text.{Text, codes, text_eq, is_ascii_digit}
use pccs_rs.Errors.{PccsError, invalid_req}
use pccs_rs.Validate.Strings.{
  trim, trim_end_matches, strip_prefix, strip_suffix, split, split_char, nonempty,
}

unfoldable pub normalize_amd_kds_host : Text → Text
unfolding trim trim_end_matches strip_suffix
normalize_amd_kds_host uri =
    let host = trim_end_matches b'/' (trim uri) in
    elim (strip_suffix (codes "/vcek/v1") host) [
      | some stripped ↦ trim_end_matches b'/' stripped
      | none ↦ elim (strip_suffix (codes "/vlek/v1") host) [
        | some stripped ↦ trim_end_matches b'/' stripped
        | none ↦ host
      ]
    ]

unfoldable pub normalize_nvidia_rim_host : Text → Text
unfolding trim trim_end_matches strip_suffix
normalize_nvidia_rim_host uri =
    let host = trim_end_matches b'/' (trim uri) in
    elim (strip_suffix (codes "/v1/rim") host) [
      | some stripped ↦ trim_end_matches b'/' stripped
      | none ↦ host
    ]

unfoldable pub join_host_path : Text → Text → Text
join_host_path host [] = host ++ b'/' ∷ []
join_host_path host (b ∷ path) = if b == b'/' then host ++ b ∷ path else host ++ b'/' ∷ b ∷ path

unfoldable pub split_path_query : Text → Text × Option Text
unfolding split_char
split_path_query s = elim (split_char b'?' s) [
  | some (path, query) ↦ (path, some query)
  | none ↦ (s, none)
]

abbrev is_ascii_alphanumeric : ℕ → Bool
is_ascii_alphanumeric b =
    leb b'0' b && leb b b'9' || (leb b'a' b && leb b b'z' || leb b'A' b && leb b b'Z')

unfoldable pub is_alnum_segment : Text → Bool
is_alnum_segment s = not (is_empty s) && all is_ascii_alphanumeric s

abbrev amd_hwid_query_params : List Text
amd_hwid_query_params =
    codes "blSPL" ∷ codes "fmcSPL" ∷ codes "snpSPL" ∷ codes "teeSPL" ∷ codes "ucodeSPL" ∷ []

-- `parse::<u8>()` of decimal digits, `acc` read so far.
abbrev fits_u8 : ℕ → Text → Bool
fits_u8 acc [] = true
fits_u8 acc (b ∷ s) =
    let next = acc * 10 + (b - b'0') in
    let rest = fits_u8 next s in if ltb next 256 then rest else false

unfoldable pub is_spl_value : Text → Bool
unfolding is_ascii_digit
is_spl_value value =
    leb 1 (length value) && leb (length value) 3 && all is_ascii_digit value && fits_u8 0 value

-- `any(|a| a == key)`.
abbrev pub has_text : Text → List Text → Bool
has_text key [] = false
has_text key (t ∷ ts) = text_eq t key || has_text key ts

abbrev pub has_key : Text → List (Text × Text) → Bool
has_key key [] = false
has_key key ((k, v) ∷ rest) = text_eq k key || has_key key rest

-- `split_once('=').unwrap_or((pair, ""))`.
abbrev pub key_value : Text → Text × Text
key_value pair = elim (split_char b'=' pair) [ none ↦ (pair, []) | some kv ↦ kv ]

-- The loop over the pairs, after those in `seen`.
unfoldable pub read_pairs :
    List Text → List (Text × Text) → List Text → Result PccsError (List (Text × Text))
unfolding is_spl_value split_char
read_pairs allowed seen [] = ok seen
read_pairs allowed seen (pair ∷ pairs) = do
  let (key, value) = key_value pair
  guard (not (is_empty key)) invalid_req
  guard (has_text key allowed) invalid_req
  guard (is_spl_value value) invalid_req
  guard (not (has_key key seen)) invalid_req
  read_pairs allowed (seen ++ (key, value) ∷ []) pairs

-- The order of strings, by bytes.
abbrev pub text_lt : Text → Text → Bool
text_lt s [] = false
text_lt [] (b ∷ t) = true
text_lt (a ∷ s) (b ∷ t) = ltb a b || (a == b) && text_lt s t

-- `sort_unstable_by` on the keys, which differ.
abbrev pub insert_pair : Text × Text → List (Text × Text) → List (Text × Text)
insert_pair x [] = x ∷ []
insert_pair x (y ∷ ys) = if text_lt y.0 x.0 then y ∷ insert_pair x ys else x ∷ y ∷ ys

unfoldable pub sort_pairs : List (Text × Text) → List (Text × Text)
sort_pairs [] = []
sort_pairs (x ∷ xs) = insert_pair x (sort_pairs xs)

-- `map(|(k, v)| format!("{k}={v}"))` joined by `&`.
unfoldable pub encode_pairs : List (Text × Text) → Text
encode_pairs [] = []
encode_pairs (x ∷ []) = x.0 ++ b'=' ∷ x.1
encode_pairs (x ∷ y ∷ ys) = x.0 ++ b'=' ∷ (x.1 ++ b'&' ∷ encode_pairs (y ∷ ys))

abbrev encoded_query : List (Text × Text) → Text
encoded_query [] = []
encoded_query (x ∷ xs) = b'?' ∷ encode_pairs (sort_pairs (x ∷ xs))

unfoldable pub canonicalize_query : Option Text → List Text → Result PccsError Text
unfolding read_pairs sort_pairs encode_pairs split
canonicalize_query query allowed = elim (nonempty query) [
  | none ↦ ok []
  | some q ↦ do seen ← read_pairs allowed [] (split b'&' q); ok (encoded_query seen)
]

-- The kind of certificate and the rest of the path.
abbrev kds_prefix : Text → Result PccsError (Text × Text)
kds_prefix path = elim (strip_prefix (codes "/vcek/") path) [
  | some rest ↦ ok (codes "/vcek/", rest)
  | none ↦ elim (strip_prefix (codes "/vlek/") path) [
    | some rest ↦ ok (codes "/vlek/", rest)
    | none ↦ err invalid_req
  ]
]

abbrev kds_query : Text → Option Text → Result PccsError Text
kds_query last query =
    if text_eq last (codes "cert_chain") || text_eq last (codes "crl")
    then canonicalize_query query []
    else if is_alnum_segment last
    then canonicalize_query query amd_hwid_query_params
    else err invalid_req

-- Exactly three segments.
abbrev kds_segments : List Text → Result PccsError (Text × Text × Text)
kds_segments (a ∷ b ∷ c ∷ []) = ok (a, b, c)
kds_segments (a ∷ b ∷ c ∷ d ∷ rest) = err invalid_req
kds_segments (a ∷ b ∷ []) = err invalid_req
kds_segments (a ∷ []) = err invalid_req
kds_segments [] = err invalid_req

unfoldable pub canonicalize_amd_kds : Text → Result PccsError Text
unfolding split_path_query is_alnum_segment canonicalize_query strip_prefix split
canonicalize_amd_kds path_and_query = do
  let (path, query) = split_path_query path_and_query
  (prefix, rest) ← kds_prefix path
  (v1, product, last) ← kds_segments (split b'/' rest)
  guard (text_eq v1 (codes "v1") && is_alnum_segment product) invalid_req
  query' ← kds_query last query
  ok (prefix ++ (codes "v1/" ++ (product ++ b'/' ∷ (last ++ query'))))

unfoldable pub is_rim_id : Text → Bool
is_rim_id s =
    not (is_empty s || text_eq s (codes ".") || text_eq s (codes ".."))
    && all (λ b. is_ascii_alphanumeric b || b == b'-' || b == b'_' || b == b'.') s

abbrev pub contains : ℕ → Text → Bool
contains c [] = false
contains c (b ∷ s) = b == c || contains c s

unfoldable pub canonicalize_nvidia_rim : Text → Result PccsError Text
unfolding split_path_query is_rim_id canonicalize_query strip_prefix
canonicalize_nvidia_rim path_and_query = do
  let (path, query) = split_path_query path_and_query
  rest ← ok_or (strip_prefix (codes "/v1/rim/") path) invalid_req
  guard (not (contains b'/' rest) && is_rim_id rest) invalid_req
  query' ← canonicalize_query query []
  ok (codes "/v1/rim/" ++ (rest ++ query'))
