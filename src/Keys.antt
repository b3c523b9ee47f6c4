-- ===== src/Keys.antt =====
-- src/keys.rs: the keys under which records are stored. `none` stands for a panic of the digest.
pub mod Laws
pub mod Parts
use pccs_rs.Common.{
  ℕ, zero, suc, ◌+◌, ◌/◌, ◌%◌, Bool, List, [], ◌∷◌, ◌++◌, map, Option, none, some, ltb, ◌==◌,
  if◌then◌else◌,
}
use pccs_rs.Common.Text.{Text, codes, to_ascii_lowercase}
use pccs_rs.Hash.{hash128_hex}

-- `join("/")`.
abbrev pub join : List Text → Text
join [] = []
join (p ∷ []) = p
join (p ∷ q ∷ ps) = p ++ b'/' ∷ join (q ∷ ps)

unfoldable pub join_lower : List Text → Text
join_lower parts = join (map to_ascii_lowercase parts)

-- `format!("{prefix}{hash}")`.
abbrev with_digest : Text → Option Text → Option Text
with_digest prefix none = none
with_digest prefix (some digest) = some (prefix ++ digest)

unfoldable pub make : Text → List Text → Option Text
unfolding join_lower
make prefix parts = with_digest prefix (hash128_hex (join_lower parts))

-- `to_string` of a `u32`: at most ten digits.
abbrev pub decimal_loop : ℕ → ℕ → Text → Text
decimal_loop zero n digits = digits
decimal_loop (suc fuel) n digits =
    let rest = decimal_loop fuel (n / 10) ((b'0' + n % 10) ∷ digits) in
    if ltb n 10 then (b'0' + n) ∷ digits else rest

unfoldable pub decimal : ℕ → Text
decimal n = decimal_loop 10 n []

unfoldable pub pckcert : Text → Text → Text → Text → Option Text
unfolding make
pckcert qeid pceid cpusvn pcesvn = make (codes "pckcert/") (qeid ∷ pceid ∷ cpusvn ∷ pcesvn ∷ [])

unfoldable pub tcb : Text → ℕ → Text → Text → Option Text
unfolding make decimal
tcb prod version fmspc update = make (codes "tcb/") (prod ∷ decimal version ∷ fmspc ∷ update ∷ [])

unfoldable pub identity : Text → ℕ → Text → Option Text
unfolding make decimal
identity name version update = make (codes "identity/") (name ∷ decimal version ∷ update ∷ [])

unfoldable pub pckcrl : Text → Option Text
unfolding make
pckcrl ca = make (codes "pckcrl/") (ca ∷ [])

abbrev pub rootcacrl : Text
rootcacrl = codes "rootcacrl"

unfoldable pub crl : Text → Option Text
unfolding make
crl uri = make (codes "crl/") (uri ∷ [])

unfoldable pub amd_kds : Text → Option Text
amd_kds url = with_digest (codes "amd-kds/") (hash128_hex url)

unfoldable pub nvidia_rim : Text → Option Text
nvidia_rim url = with_digest (codes "nvidia-rim/") (hash128_hex url)

unfoldable pub nvidia_ocsp : Text → Text
nvidia_ocsp cache_key = codes "nvidia-ocsp/" ++ cache_key

unfoldable pub appraisal : Text → Option Text
unfolding make
appraisal fmspc = make (codes "appraisal/") (fmspc ∷ [])

unfoldable pub preg : Text → Text → Text → Text → Option Text
unfolding make
preg qeid pceid cpusvn pcesvn = make (codes "preg/") (qeid ∷ pceid ∷ cpusvn ∷ pcesvn ∷ [])

unfoldable pub platform : Text → Text → Option Text
unfolding make
platform qeid pceid = make (codes "platform/") (qeid ∷ pceid ∷ [])

unfoldable pub prod_name : ℕ → Text
prod_name prod_type = if prod_type == 1 then codes "tdx" else codes "sgx"

unfoldable pub identity_name : ℕ → Text
identity_name enclave_id =
    if enclave_id == 2 then codes "qve" else if enclave_id == 3 then codes "tdqe" else codes "qe"
