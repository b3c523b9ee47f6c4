-- ===== src/Tests/ValidateExamples.antt =====
-- The theorems of the validation at concrete inputs.
use pccs_rs.Common.{ℕ, ◌≡◌, ◌↔◌, refl, ◌⊎◌, true, List, [], ◌∷◌, ◌++◌, some, arith, length, All}
use pccs_rs.Common.Result.{ok}
use pccs_rs.Common.Text.{
  codes, Text, to_ascii_uppercase, is_ascii_hexdigit, is_ascii_digit, to_upper, to_lower,
}
use pccs_rs.Validate.Strings.{
  split, split_char, strip_prefix, strip_suffix, parse_u32, trim, strip_while, space_at_start,
  space_at_end, wide_space,
}
use pccs_rs.Validate.Decode.{Map, find, query_params}
use pccs_rs.Validate.Decode.Query.{query_params-first, first_value}
use pccs_rs.Validate.Params.{
  is_hex, require_hex, fmspc, update_type, pck_ca, fmspc_list, platforms_source,
}
use pccs_rs.Validate.Params.Laws.{HexDigit, require_hex_iff, platforms_source-hex}
use pccs_rs.Validate.Uri.{
  span_digits, version_at, api_version_from_url, split_https, is_root_host, is_intermediate_host,
  is_valid_crl_uri, is_root_crl_uri, is_host_char,
}
use pccs_rs.Validate.Uri.Laws.{api_version_from_url_sound}
use pccs_rs.Validate.Body.{
  PlatformReg, platform_reg, normalize, opt_str, req_str, hex_if_present, qe_id_ok,
}
use pccs_rs.Validate.Body.Laws.{IsReg, platform_reg-IsReg}
use pccs_rs.Tests.Sample.{json, JValue, obj, field, end, str}

validation : Unit {0}
unfolding is_hex require_hex fmspc update_type pck_ca fmspc_list platforms_source is_ascii_hexdigit
    is_ascii_digit to_upper to_lower split split_char strip_prefix strip_suffix parse_u32 trim
    strip_while space_at_start space_at_end wide_space span_digits version_at api_version_from_url
    split_https is_root_host is_intermediate_host is_valid_crl_uri is_root_crl_uri is_host_char
    platform_reg normalize opt_str req_str hex_if_present qe_id_ok
validation = tt

require_hex_iff_example : (require_hex (some (codes "00ab")) 4 ≡ ok (codes "00AB")) ↔ (
    (s : Text) × (some (codes "00ab") ≡ some s)
    × (length s ≡ 4)
    × All HexDigit s
    × (codes "00AB" ≡ to_ascii_uppercase s))
require_hex_iff_example = require_hex_iff (some (codes "00ab")) 4 (codes "00AB") (omega arith)

abbrev two_fmspcs : List Text
two_fmspcs = codes "00906EA10000" ∷ codes "00606A000000" ∷ []

platforms_source-hex_example : All (λ t. is_hex t 12 ≡ true) two_fmspcs
unfolding validation
platforms_source-hex_example =
    platforms_source-hex (some (codes "[00906ea10000, 00606a000000]")) two_fmspcs refl

abbrev root_uri : Text
root_uri = codes "https://certificates.trustedservices.intel.com/IntelSGXRootCA.der"

abbrev v4_url : Text
v4_url = codes "/sgx/certification/v4/pckcert"

api_version_from_url_sound_example :
    ((◌≡◌ {A = ℕ} 4 3) ⊎ (◌≡◌ {A = ℕ} 4 4))
    × ((pre : Text) × (digits : Text) × (post : Text) × (v4_url
          ≡ pre ++ b'/' ∷ b'v' ∷ (digits ++ b'/' ∷ post))
        × (parse_u32 0 digits ≡ some 4))
unfolding validation
api_version_from_url_sound_example = api_version_from_url_sound v4_url 4 refl

query_params-first_example :
    (m : Map) × (query_params (some (codes "ca=a&ca=b")) ≡ ok m)
    × (find (codes "ca") m ≡ first_value (codes "ca") (split b'&' (codes "ca=a&ca=b")))
query_params-first_example = query_params-first b'c' (codes "a=a&ca=b") (codes "ca")

abbrev manifest_body : JValue
manifest_body = obj (
    field (codes "qe_id") (str (codes "ab")) (
      field (codes "pce_id") (str (codes "000a"))
        (field (codes "platform_manifest") (str (codes "m")) end)))

abbrev manifest_reg : PlatformReg
manifest_reg = record {
  qe_id = codes "AB";
  pce_id = codes "000A";
  cpu_svn = [];
  pce_svn = [];
  enc_ppid = [];
  platform_manifest = codes "m";
}

platform_reg-IsReg_example : IsReg manifest_reg
unfolding validation
platform_reg-IsReg_example = platform_reg-IsReg json manifest_body manifest_reg refl
